-- ===== src/Static/Lifo/Refine.antt =====
-- The queue of async/src/no_alloc/lifo.rs as a list of items, oldest first: `push` and `pop`.
use native.Mathlib.Decide.{dec_lt}
use uefi_async.Base.{
  ℕ, ◌+◌, ◌*◌, ◌%◌, ◌^◌, ◌≤◌, ◌<◌, ◌≡◌, refl, sym, ap, ◌∙◌, List, [], ◌∷◌, ◌++◌, none, Option, some,
  arith, length, get_or, set, length-set, add_u32, sub_u32,
}
use uefi_async.Static.Lifo.{Queue, pop_count, booked, tail, index, read_at, write_at, push, pop}
use uefi_async.Static.Lifo.Deque
use uefi_async.Static.Lifo.Window.{
  window, length-window, window-append, window_push, cap_small, index_wrap,
}

-- The number of items, as `spare_capacity` and the thieves see it.
abbrev pub len : Queue → ℕ
len q = sub_u32 (tail q) q.head

-- A queue with no steal in progress.
pub record IsValid (k : ℕ) (q : Queue) : Type 0 where
  pub room : length q.buffer ≡ 2 ^ k
  pub pushes : q.push_count < 2 ^ 32
  pub packed : q.pop_count_and_head < 2 ^ 64
  pub settled : booked q ≡ q.head
  pub fits : len q ≤ 2 ^ k

module _ (k : ℕ) (small : k < 32) where
  abbrev pub items : Queue → List ℕ
  items q = window (2 ^ k) q.buffer q.head (len q)

  pub length-items : (q : Queue) → length (items q) ≡ len q
  length-items q = length-window (2 ^ k) q.buffer q.head (len q)

  -- The index that a position behind the items stands for.
  pub tail_index : (q : Queue) → IsValid k q → index (2 ^ k) (tail q) ≡ (q.head + len q) % 2 ^ k
  tail_index q v =
      ap (index (2 ^ k)) {x = tail q} {y = (q.head + len q) % 2 ^ 32}
        (omega (arith, cap_small k small))
      ∙ index_wrap k small (q.head + len q)

  -- The queue that a push with room leaves.
  abbrev pub pushed : Queue → ℕ → Queue
  pushed q x = record q {
    buffer = set q.buffer (index (2 ^ k) (tail q)) x;
    push_count = add_u32 q.push_count 1;
  }

  pub len-pushed : (q : Queue) (x : ℕ) → IsValid k q → len q < 2 ^ k → len (pushed q x) ≡ len q + 1
  len-pushed q x v room = omega (arith, cap_small k small)

  pushed-IsValid : (q : Queue) (x : ℕ) → IsValid k q → len q < 2 ^ k → IsValid k (pushed q x)
  pushed-IsValid q x v room = record {
    room = length-set q.buffer (index (2 ^ k) (tail q)) x ∙ v.room;
    pushes = omega arith;
    packed = v.packed;
    settled = v.settled;
    fits = omega (arith, len-pushed q x v room);
  }

  items-pushed :
      (q : Queue) (x : ℕ) → IsValid k q → len q < 2 ^ k → items (pushed q x) ≡ items q ++ x ∷ []
  items-pushed q x v room = rw (len-pushed q x v room) (
      window_push (2 ^ k) q.buffer x q.head (len q) (index (2 ^ k) (tail q)) (omega arith)
        (tail_index q v) room)

  -- A push in a valid queue is the push of the list: refused exactly at capacity.
  pub push_refines :
      (q : Queue) (x : ℕ)
      → IsValid k q
      → let (r, q') = push (2 ^ k) q x in
        IsValid k q' × ((r, items q') ≡ Deque.push (2 ^ k) (items q) x)
  unfolding push Deque.push write_at
  push_refines q x v = ground (arith, length-items q, items-pushed q x v, pushed-IsValid q x v)

  -- The queue that a pop leaves, and the item at its end.
  abbrev pub popped : Queue → Queue
  popped q = record q { pop_count_and_head = (add_u32 (pop_count q) 1) * 2 ^ 32 + booked q }

  len-popped : (q : Queue) → IsValid k q → 0 < len q → len (popped q) + 1 ≡ len q
  len-popped q v some_left = omega (arith, cap_small k small)

  popped-IsValid : (q : Queue) → IsValid k q → 0 < len q → IsValid k (popped q)
  popped-IsValid q v some_left = record {
    room = v.room;
    pushes = v.pushes;
    packed = omega arith;
    settled = omega arith;
    fits = omega (arith, len-popped q v some_left);
  }

  last_index :
      (q : Queue) (n : ℕ)
      → IsValid k q
      → len q ≡ n + 1
      → index (2 ^ k) (sub_u32 (tail q) 1) ≡ (q.head + n) % 2 ^ k
  last_index q n v e =
      ap (index (2 ^ k)) {x = sub_u32 (tail q) 1} {y = (q.head + n) % 2 ^ 32}
        (omega (arith, cap_small k small))
      ∙ index_wrap k small (q.head + n)

  items-popped :
      (q : Queue)
      → IsValid k q
      → 0 < len q
      → items q ≡ items (popped q) ++ read_at (2 ^ k) q.buffer (sub_u32 (tail q) 1) ∷ []
  unfolding read_at
  items-popped q v some_left =
      ap (window (2 ^ k) q.buffer q.head) (sym (len-popped q v some_left))
      ∙ window-append (2 ^ k) q.buffer q.head (len (popped q)) 1
      ∙ ap (λ i. items (popped q) ++ get_or q.buffer i 0 ∷ [])
          (sym (last_index q (len (popped q)) v (sym (len-popped q v some_left))))

  pop-empty : (q : Queue) → IsValid k q → len q ≡ 0 → pop (2 ^ k) q ≡ (none, q)
  unfolding pop
  pop-empty q v e = ground arith

  pub pop-some :
      (q : Queue)
      → IsValid k q
      → 0 < len q
      → pop (2 ^ k) q ≡ (some (read_at (2 ^ k) q.buffer (sub_u32 (tail q) 1)), popped q)
  unfolding pop
  pop-some q v some_left = ground arith

  -- A pop in a valid queue is the pop of the list: it takes the newest item, and fails only if
  -- there is none.
  pub pop_refines :
      (q : Queue)
      → IsValid k q
      → let (r, q') = pop (2 ^ k) q in IsValid k q' × ((r, items q') ≡ Deque.pop (items q))
  unfolding Deque.pop
  pop_refines q v = elim (dec_lt 0 (len q)) [
    | yes some_left ↦ rw (pop-some q v some_left) (
      popped-IsValid q v some_left,
      sym (Deque.pop-append (items (popped q)) (read_at (2 ^ k) q.buffer (sub_u32 (tail q) 1)))
          ∙ ap Deque.pop (sym (items-popped q v some_left)),
    )
    | no empty ↦
        let e : len q ≡ 0 = omega arith in
        let gone : items q ≡ [] = ap (window (2 ^ k) q.buffer q.head) e in
        rw (pop-empty q v e) (v, rw gone (nothing))
  ]
    where
      nothing : ◌≡◌ {A = Option ℕ × List ℕ} (none, []) (Deque.pop [])
      nothing = refl
