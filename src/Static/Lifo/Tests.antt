-- ===== src/Static/Lifo/Tests.antt =====
-- The theorems of the work-stealing queue at queues of four places.
use uefi_async.Base.{ℕ, ◌-◌, ◌/◌, ◌⊎◌, add_u32, ◌+◌, ◌<◌, ◌≡◌, ◌^◌, refl, arith, List, [], ◌∷◌}
use uefi_async.Static.Lifo.{
  Queue, push, pop, book_items, steal, steal_and_pop, read_at, ok, err, empty, drain,
}
use uefi_async.Static.Lifo.Deque
use uefi_async.Static.Lifo.Refine.{IsValid, items, len, push_refines, pop_refines}
use uefi_async.Static.Lifo.Thieves.{share, Moved}
use uefi_async.Static.Lifo.Steals.{steal_refines, steal_and_pop_refines}
use uefi_async.Static.Lifo.Drains.{Drained, drain_refines}
use uefi_async.Static.Lifo.Race.{push_overwrites_booked}

-- Three items; the counters are just before their wrap-around.
abbrev three : Queue
three = record {
  push_count = 1;
  pop_count_and_head = 4294967294;
  head = 4294967294;
  buffer = 13 ∷ 0 ∷ 11 ∷ 12 ∷ [];
}

abbrev full : Queue
full = record {
  push_count = 7;
  pop_count_and_head = 4294967298;
  head = 2;
  buffer = 23 ∷ 24 ∷ 21 ∷ 22 ∷ [];
}

abbrev none_yet : Queue
none_yet = record { push_count = 0; pop_count_and_head = 0; head = 0; buffer = 0 ∷ 0 ∷ 0 ∷ 0 ∷ [] }

three-IsValid : IsValid 2 three
three-IsValid = record {
  room = refl;
  pushes = omega arith;
  packed = omega arith;
  settled = refl;
  fits = omega arith;
}

none_yet-IsValid : IsValid 2 none_yet
none_yet-IsValid = record {
  room = refl;
  pushes = omega arith;
  packed = omega arith;
  settled = refl;
  fits = omega arith;
}

two_small : 2 < 32
two_small = omega arith

three_items : items 2 two_small three ≡ 11 ∷ 12 ∷ 13 ∷ []
three_items = refl

full-IsValid : IsValid 2 full
full-IsValid = record {
  room = refl;
  pushes = omega arith;
  packed = omega arith;
  settled = refl;
  fits = omega arith;
}

push_refines_example :
    let (r, q') = push (2 ^ 2) three 14 in
    IsValid 2 q' × ((r, items 2 two_small q') ≡ Deque.push (2 ^ 2) (items 2 two_small three) 14)
push_refines_example = push_refines 2 two_small three 14 three-IsValid

pop_refines_example :
    let (r, q') = pop (2 ^ 2) three in
    IsValid 2 q' × ((r, items 2 two_small q') ≡ Deque.pop (items 2 two_small three))
pop_refines_example = pop_refines 2 two_small three three-IsValid

abbrev half : ℕ → ℕ
half n = (n + 1) / 2

steal_refines_example :
    let (r, source', dest') = steal (2 ^ 2) three none_yet half in
    let n = share three half (2 ^ 2 - len none_yet) in
    ((n ≡ 0) × (steal (2 ^ 2) three none_yet half ≡ (err empty, three, none_yet)))
    ⊎ ((0 < n) × (r ≡ ok n) × Moved 2 two_small three none_yet source' dest' [] n)
steal_refines_example = steal_refines 2 two_small three none_yet half three-IsValid none_yet-IsValid

steal_and_pop_refines_example :
    let (r, source', dest') = steal_and_pop (2 ^ 2) three none_yet half in
    let n = share three half (2 ^ 2 - len none_yet + 1) in
    ((n ≡ 0) × (steal_and_pop (2 ^ 2) three none_yet half ≡ (err empty, three, none_yet)))
    ⊎ ((x : ℕ) × (0 < n)
        × (r ≡ ok (x, n - 1))
        × Moved 2 two_small three none_yet source' dest' (x ∷ []) (n - 1))
steal_and_pop_refines_example =
    steal_and_pop_refines 2 two_small three none_yet half three-IsValid none_yet-IsValid

push_overwrites_booked_example :
    let (booked, q') = book_items (2 ^ 2) full (λ _. 1) 1 in
    let (pushed, q'') = push (2 ^ 2) q' 25 in
    (booked ≡ ok (2, add_u32 2 1, 1)) × (pushed ≡ ok tt) × (read_at (2 ^ 2) q''.buffer 2 ≡ 25)
push_overwrites_booked_example = push_overwrites_booked 2 two_small full 25 full-IsValid refl

drain_refines_example :
    let (r, q') = drain 4 three (λ count. 2) in
    let n = share three (λ count. 2) (2 ^ 32 - 1) in
    ((n ≡ 0) × (drain 4 three (λ count. 2) ≡ (err empty, three)))
    ⊎ ((drained : List ℕ) × (0 < n) × (r ≡ ok drained) × Drained 2 two_small three q' drained n)
drain_refines_example = drain_refines 2 two_small three (λ count. 2) three-IsValid
