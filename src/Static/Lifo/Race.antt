-- ===== src/Static/Lifo/Race.antt =====
-- A steal in progress (async/src/no_alloc/lifo.rs): between `book_items` and the store to `head` the
-- owner may push and pop. `push` tests the room against the booked head, not against `head`.
use native.Mathlib.Nat.{add-mod_right, mod-lt}
use uefi_async.Base.{
  ℕ, ◌+◌, ◌%◌, ◌^◌, ◌≤◌, ◌<◌, ◌≡◌, refl, sym, ap, ◌∙◌, arith, set, add_u32, length, get_or-set_self,
}
use uefi_async.Static.Lifo.{Queue, ok, tail, index, read_at, write_at, book_items, push}
use uefi_async.Static.Lifo.Window.{window, window_write, cap_small, cap_pos, index_wrap}
use uefi_async.Static.Lifo.Refine.{IsValid, len, tail_index}
use uefi_async.Static.Lifo.Thieves.{book_items_lem, booking, share}

module _ (k : ℕ) (small : k < 32) where
  book_one :
      (q : Queue)
      → IsValid k q
      → 0 < len q
      → book_items (2 ^ k) q (λ _. 1) 1 ≡ (ok (q.head, add_u32 q.head 1, 1), booking k small q 1)
  book_one q v some_left =
      let one : share q (λ _. 1) 1 ≡ 1 = omega arith in
      book_items_lem k small q (λ _. 1) 1 v ∙ rw one refl

  -- The queue that a push leaves while `n` items are booked, if it finds room behind these.
  abbrev overrun : Queue → ℕ → ℕ → Queue
  overrun q n x = record (booking k small q n) {
    buffer = set q.buffer (index (2 ^ k) (tail (booking k small q n))) x;
    push_count = add_u32 q.push_count 1;
  }

  tail-booking : (q : Queue) (n : ℕ) → IsValid k q → tail (booking k small q n) ≡ tail q
  tail-booking q n v = omega arith

  push-booking :
      (q : Queue) (n x : ℕ)
      → IsValid k q
      → n ≤ len q
      → len q < 2 ^ k + n
      → push (2 ^ k) (booking k small q n) x ≡ (ok tt, overrun q n x)
  unfolding push write_at
  push-booking q n x v le lt = ground (arith, cap_small k small)

  -- While a thief has booked the oldest item of a full queue and not copied it yet, the owner's push
  -- is accepted, and it overwrites that item: the thief then reads the item just pushed.
  pub push_overwrites_booked :
      (q : Queue) (x : ℕ)
      → IsValid k q
      → len q ≡ 2 ^ k
      → let (booked, q') = book_items (2 ^ k) q (λ _. 1) 1 in
        let (pushed, q'') = push (2 ^ k) q' x in
        (booked ≡ ok (q.head, add_u32 q.head 1, 1))
        × (pushed ≡ ok tt)
        × (read_at (2 ^ k) q''.buffer q.head ≡ x)
  unfolding read_at
  push_overwrites_booked q x v full =
      rw
        (
          book_one q v (omega (arith, cap_pos k small)),
          push-booking q 1 x v (omega (arith, cap_pos k small)) (omega arith),
        )
        (refl, refl, rw same (get_or-set_self q.buffer _ x 0 inside))
    where
      slot : ℕ
      slot = index (2 ^ k) (tail (booking k small q 1))

      slot_lem : slot ≡ (q.head + 2 ^ k) % 2 ^ k
      slot_lem =
          ap (index (2 ^ k)) (tail-booking q 1 v)
          ∙ tail_index k small q v
          ∙ ap (λ n. (q.head + n) % 2 ^ k) full

      same : index (2 ^ k) q.head ≡ slot
      same =
          ap (index (2 ^ k)) {x = q.head} {y = q.head % 2 ^ 32} (omega arith)
          ∙ index_wrap k small q.head
          ∙ sym (add-mod_right q.head (2 ^ k))
          ∙ sym slot_lem

      inside : slot < length q.buffer
      inside = omega (arith, slot_lem, mod-lt (q.head + 2 ^ k) (cap_pos k small))

  -- A push that has room behind the items not yet copied, too, leaves the booked items in place.
  pub push_keeps_booked :
      (q : Queue) (n x : ℕ)
      → IsValid k q
      → n ≤ len q
      → len q < 2 ^ k
      → let (pushed, q') = push (2 ^ k) (booking k small q n) x in
        (pushed ≡ ok tt) × (window (2 ^ k) q'.buffer q.head n ≡ window (2 ^ k) q.buffer q.head n)
  push_keeps_booked q n x v le lt = rw (push-booking q n x v le (omega arith)) (
    refl,
    window_write (2 ^ k) q.buffer x q.head (len q) n _
        (ap (index (2 ^ k)) (tail-booking q n v) ∙ tail_index k small q v) le lt,
  )
