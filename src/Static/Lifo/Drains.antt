-- ===== src/Static/Lifo/Drains.antt =====
-- `drain` and `clear` of async/src/no_alloc/lifo.rs.
use native.Mathlib.Decide.{dec_lt}
use uefi_async.Base.{
  ℕ, zero, suc, ◌-◌, ◌%◌, ◌^◌, ◌<◌, ◌≡◌, refl, sym, ap, ap₂, ◌∙◌, List, [], ◌∷◌, ◌++◌, arith,
  length, get_or, add_u32, ◌⊎◌, inl, inr,
}
use uefi_async.Static.Lifo.{Queue, ok, err, empty, read_at, drain_from, drain, clear, cleared_with}
use uefi_async.Static.Lifo.Window.{window, length-window, index_wrap, cap_small}
use uefi_async.Static.Lifo.Refine.{IsValid, len, items}
use uefi_async.Static.Lifo.Thieves.{
  share, booking, book_items_lem, robbed, robbed-IsValid, items-robbed,
}

module _ (k : ℕ) (small : k < 32) where
  drain_from-window :
      (q : Queue) (p n : ℕ) → drain_from (2 ^ k) q (p % 2 ^ 32) n ≡ window (2 ^ k) q.buffer p n
  unfolding drain_from read_at
  drain_from-window q p zero = refl
  drain_from-window q p (suc n) = ap₂ ◌∷◌ (ap (λ i. get_or q.buffer i 0) (index_wrap k small p)) (
      ap (λ c. drain_from (2 ^ k) q c n) {x = add_u32 (p % 2 ^ 32) 1} {y = suc p % 2 ^ 32}
        (omega arith)
      ∙ drain_from-window q (suc p) n)

  drain_empty :
      (q : Queue) (count_fn : ℕ → ℕ)
      → IsValid k q
      → share q count_fn (2 ^ 32 - 1) ≡ 0
      → drain (2 ^ k) q count_fn ≡ (err empty, q)
  unfolding drain
  drain_empty q count_fn v e = ground (arith, book_items_lem k small q count_fn (2 ^ 32 - 1) v)

  drain_some :
      (q : Queue) (count_fn : ℕ → ℕ)
      → IsValid k q
      → (n : ℕ) → share q count_fn (2 ^ 32 - 1) ≡ n
      → 0 < n
      → drain (2 ^ k) q count_fn
        ≡ (ok (drain_from (2 ^ k) (booking k small q n) q.head n), robbed k small q n)
  unfolding drain
  drain_some q count_fn v n e pos = ground (arith, book_items_lem k small q count_fn (2 ^ 32 - 1) v)

  head_small : (q : Queue) → IsValid k q → q.head % 2 ^ 32 ≡ q.head
  head_small q v = omega arith

  drained_window :
      (q : Queue) (n : ℕ)
      → IsValid k q
      → drain_from (2 ^ k) (booking k small q n) q.head n ≡ window (2 ^ k) q.buffer q.head n
  drained_window q n v =
      ap (λ c. drain_from (2 ^ k) (booking k small q n) c n) (sym (head_small q v))
      ∙ drain_from-window (booking k small q n) q.head n

  -- What a drain leaves: the items drained, oldest first, and the queue.
  pub record Drained (q q' : Queue) (drained : List ℕ) (n : ℕ) : Type 0 where
    pub many : length drained ≡ n
    pub valid : IsValid k q'
    pub from_front : items k small q ≡ drained ++ items k small q'

  -- A drain that is run to its end with no interference fails only if there is nothing to take or
  -- `count_fn` asks for nothing, and then changes nothing. Otherwise it gives out as many of the
  -- oldest items as `count_fn` asks for, in order, and leaves the others.
  pub drain_refines :
      (q : Queue) (count_fn : ℕ → ℕ)
      → IsValid k q
      → let (r, q') = drain (2 ^ k) q count_fn in
        let n = share q count_fn (2 ^ 32 - 1) in
        ((n ≡ 0) × (drain (2 ^ k) q count_fn ≡ (err empty, q)))
        ⊎ ((drained : List ℕ) × (0 < n) × (r ≡ ok drained) × Drained q q' drained n)
  drain_refines q count_fn v = go _ refl
    where
      go :
          (n : ℕ)
          → share q count_fn (2 ^ 32 - 1) ≡ n
          → let (r, q') = drain (2 ^ k) q count_fn in
            let n = share q count_fn (2 ^ 32 - 1) in
            ((n ≡ 0) × (drain (2 ^ k) q count_fn ≡ (err empty, q)))
            ⊎ ((drained : List ℕ) × (0 < n) × (r ≡ ok drained) × Drained q q' drained n)
      go zero e = inl (e, drain_empty q count_fn v e)
      go (suc n) e =
          rw (drain_some q count_fn v (suc n) e (omega arith), e)
            (inr (
              window (2 ^ k) q.buffer q.head (suc n),
              omega arith,
              ap (λ l. ok l) (drained_window q (suc n) v),
              record {
                many = length-window (2 ^ k) q.buffer q.head (suc n);
                valid = robbed-IsValid k small q (suc n) v (omega arith);
                from_front = items-robbed k small q (suc n) v (omega arith);
              },
            ))

  share_all : (q : Queue) → IsValid k q → share q (λ count. count) (2 ^ 32 - 1) ≡ len q
  share_all q v = omega (arith, cap_small k small)

  clear_empty : (q : Queue) → IsValid k q → len q ≡ 0 → clear (2 ^ k) q ≡ ([], q)
  unfolding clear cleared_with
  clear_empty q v e =
      ap (cleared_with (2 ^ k)) (drain_empty q (λ count. count) v (share_all q v ∙ e))

  clear_some :
      (q : Queue)
      → IsValid k q
      → 0 < len q
      → clear (2 ^ k) q ≡ (items k small q, robbed k small q (len q))
  unfolding clear cleared_with
  clear_some q v pos =
      ap (cleared_with (2 ^ k)) (drain_some q (λ count. count) v (len q) (share_all q v) pos)
      ∙ ap (λ l. (l, robbed k small q (len q))) (drained_window q (len q) v)

  -- `clear` calls the dropper on all items, oldest first, and leaves the queue empty.
  pub clear_lem :
      (q : Queue)
      → IsValid k q
      → let (dropped, q') = clear (2 ^ k) q in
        (dropped ≡ items k small q) × (items k small q' ≡ []) × IsValid k q'
  clear_lem q v = elim (dec_lt 0 (len q)) [
    | yes some_left ↦ rw (clear_some q v some_left) (
      refl,
      ap (window (2 ^ k) q.buffer (add_u32 q.head (len q))) {x = len (robbed k small q (len q))}
          {y = 0} (omega (arith, cap_small k small)),
      robbed-IsValid k small q (len q) v (omega arith),
    )
    | no none_left ↦
        let gone : items k small q ≡ [] =
          ap (window (2 ^ k) q.buffer q.head) {x = len q} {y = 0} (omega arith) in
        rw (clear_empty q v (omega arith)) (sym gone, gone, v)
  ]
