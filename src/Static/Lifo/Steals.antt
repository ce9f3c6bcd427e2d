-- ===== src/Static/Lifo/Steals.antt =====
-- `steal` and `steal_and_pop` of async/src/no_alloc/lifo.rs with no interference.
use uefi_async.Base.{
  ℕ, zero, suc, ◌+◌, ◌-◌, ◌^◌, ◌≤◌, ◌<◌, ◌≡◌, refl, sym, ap, ◌∙◌, [], ◌∷◌, ◌++◌, arith, get_or,
  add_u32, ◌⊎◌, inl, inr, append-nil,
}
use uefi_async.Static.Lifo.{
  Queue, ok, err, empty, index, read_at, free_capacity, steal, steal_and_pop,
}
use uefi_async.Static.Lifo.Window.{window, length-window, window-append, cap_small, index_wrap}
use uefi_async.Static.Lifo.Refine.{IsValid, len, items}
use uefi_async.Static.Lifo.Thieves.{
  Moved, robbed, filled, share, book_items_lem, robbed-IsValid, items-robbed, filled-IsValid,
  items-filled,
}

module _ (k : ℕ) (small : k < 32) where
  free_capacity_lem :
      (dest : Queue) → IsValid k dest → free_capacity (2 ^ k) dest ≡ 2 ^ k - len dest
  free_capacity_lem dest v = omega (arith, cap_small k small)

  steal_empty :
      (source dest : Queue) (count_fn : ℕ → ℕ)
      → IsValid k source
      → share source count_fn (free_capacity (2 ^ k) dest) ≡ 0
      → steal (2 ^ k) source dest count_fn ≡ (err empty, source, dest)
  unfolding steal
  steal_empty source dest count_fn v e =
      ground (arith, book_items_lem k small source count_fn (free_capacity (2 ^ k) dest) v)

  steal_some :
      (source dest : Queue) (count_fn : ℕ → ℕ)
      → IsValid k source
      → (n : ℕ) → share source count_fn (free_capacity (2 ^ k) dest) ≡ n
      → 0 < n
      → steal (2 ^ k) source dest count_fn
        ≡ (ok n, robbed k small source n, filled k small source dest source.head n)
  unfolding steal
  steal_some source dest count_fn v n e pos =
      ground (arith, book_items_lem k small source count_fn (free_capacity (2 ^ k) dest) v)

  Moved-steal :
      (source dest : Queue) (n : ℕ)
      → IsValid k source
      → IsValid k dest
      → n ≤ len source
      → len dest + n ≤ 2 ^ k
      → Moved k small source dest
          (robbed k small source n)
          (filled k small source dest source.head n)
          []
          n
  Moved-steal source dest n v u le fit = record {
    source_valid = robbed-IsValid k small source n v le;
    dest_valid = filled-IsValid k small source dest source.head n u fit;
    moved = window (2 ^ k) source.buffer source.head n;
    many = length-window (2 ^ k) source.buffer source.head n;
    from_front =
        items-robbed k small source n v le
        ∙ ap (λ ys. ys ++ items k small (robbed k small source n)) (sym (append-nil _));
    to_end = items-filled k small source dest source.head n u fit;
  }

  -- A steal with no interference fails exactly if there is nothing to take, no room, or `count_fn` asks
  -- for 0 items, and then changes nothing. Otherwise it moves as many items as `count_fn` asks for,
  -- cut to the items and to the room that there are.
  pub steal_refines :
      (source dest : Queue) (count_fn : ℕ → ℕ)
      → IsValid k source
      → IsValid k dest
      → let (r, source', dest') = steal (2 ^ k) source dest count_fn in
        let n = share source count_fn (2 ^ k - len dest) in
        ((n ≡ 0) × (steal (2 ^ k) source dest count_fn ≡ (err empty, source, dest)))
        ⊎ ((0 < n) × (r ≡ ok n) × Moved k small source dest source' dest' [] n)
  steal_refines source dest count_fn v u = rw (← free_capacity_lem dest u) (go _ refl)
    where
      go :
          (n : ℕ)
          → share source count_fn (free_capacity (2 ^ k) dest) ≡ n
          → let (r, source', dest') = steal (2 ^ k) source dest count_fn in
            let n = share source count_fn (free_capacity (2 ^ k) dest) in
            ((n ≡ 0) × (steal (2 ^ k) source dest count_fn ≡ (err empty, source, dest)))
            ⊎ ((0 < n) × (r ≡ ok n) × Moved k small source dest source' dest' [] n)
      go zero e = inl (e, steal_empty source dest count_fn v e)
      go (suc n) e =
          rw (steal_some source dest count_fn v (suc n) e (omega arith), e)
            (inr (
              omega arith,
              refl,
              Moved-steal source dest (suc n) v u (omega arith)
                  (omega (arith, free_capacity_lem dest u)),
            ))

  steal_and_pop_empty :
      (source dest : Queue) (count_fn : ℕ → ℕ)
      → IsValid k source
      → share source count_fn (add_u32 (free_capacity (2 ^ k) dest) 1) ≡ 0
      → steal_and_pop (2 ^ k) source dest count_fn ≡ (err empty, source, dest)
  unfolding steal_and_pop
  steal_and_pop_empty source dest count_fn v e =
      ground
        (arith, book_items_lem k small source count_fn (add_u32 (free_capacity (2 ^ k) dest) 1) v)

  steal_and_pop_some :
      (source dest : Queue) (count_fn : ℕ → ℕ)
      → IsValid k source
      → (n : ℕ) → share source count_fn (add_u32 (free_capacity (2 ^ k) dest) 1) ≡ suc n
      → steal_and_pop (2 ^ k) source dest count_fn ≡ (
        ok (read_at (2 ^ k) source.buffer (add_u32 source.head n), n),
        robbed k small source (suc n),
        filled k small source dest source.head n,
      )
  unfolding steal_and_pop
  steal_and_pop_some source dest count_fn v n e =
      let last : suc n - 1 ≡ n = omega arith in
      ground
        (arith, book_items_lem k small source count_fn (add_u32 (free_capacity (2 ^ k) dest) 1) v)

  room_and_one :
      (dest : Queue)
      → IsValid k dest
      → add_u32 (free_capacity (2 ^ k) dest) 1 ≡ 2 ^ k - len dest + 1
  room_and_one dest v = omega (arith, cap_small k small)

  Moved-steal_and_pop :
      (source dest : Queue) (n : ℕ)
      → IsValid k source
      → IsValid k dest
      → suc n ≤ len source
      → len dest + n ≤ 2 ^ k
      → Moved k small source dest
          (robbed k small source (suc n))
          (filled k small source dest source.head n)
          (read_at (2 ^ k) source.buffer (add_u32 source.head n) ∷ [])
          n
  unfolding read_at
  Moved-steal_and_pop source dest n v u le fit = record {
    source_valid = robbed-IsValid k small source (suc n) v le;
    dest_valid = filled-IsValid k small source dest source.head n u fit;
    moved = window (2 ^ k) source.buffer source.head n;
    many = length-window (2 ^ k) source.buffer source.head n;
    from_front =
        items-robbed k small source (suc n) v le
        ∙ ap (λ ys. ys ++ items k small (robbed k small source (suc n))) front;
    to_end = items-filled k small source dest source.head n u fit;
  }
    where
      front :
          window (2 ^ k) source.buffer source.head (suc n)
          ≡ window (2 ^ k) source.buffer source.head n
            ++ get_or source.buffer (index (2 ^ k) (add_u32 source.head n)) 0 ∷ []
      front =
          ap (window (2 ^ k) source.buffer source.head) {x = suc n} {y = n + 1} (omega arith)
          ∙ window-append (2 ^ k) source.buffer source.head n 1
          ∙ ap (λ i. window (2 ^ k) source.buffer source.head n ++ get_or source.buffer i 0 ∷ [])
              (sym (index_wrap k small (source.head + n)))

  -- With no interference `steal_and_pop` fails exactly if there is nothing to take or `count_fn` asks
  -- for 0 items, and then changes nothing. Otherwise it books the `n` oldest items, where one more is
  -- allowed than there is room for: it returns the newest of these, and moves the others.
  pub steal_and_pop_refines :
      (source dest : Queue) (count_fn : ℕ → ℕ)
      → IsValid k source
      → IsValid k dest
      → let (r, source', dest') = steal_and_pop (2 ^ k) source dest count_fn in
        let n = share source count_fn (2 ^ k - len dest + 1) in
        ((n ≡ 0) × (steal_and_pop (2 ^ k) source dest count_fn ≡ (err empty, source, dest)))
        ⊎ ((x : ℕ) × (0 < n)
            × (r ≡ ok (x, n - 1))
            × Moved k small source dest source' dest' (x ∷ []) (n - 1))
  steal_and_pop_refines source dest count_fn v u = rw (← room_and_one dest u) (go _ refl)
    where
      go :
          (n : ℕ)
          → share source count_fn (add_u32 (free_capacity (2 ^ k) dest) 1) ≡ n
          → let (r, source', dest') = steal_and_pop (2 ^ k) source dest count_fn in
            let n = share source count_fn (add_u32 (free_capacity (2 ^ k) dest) 1) in
            ((n ≡ 0) × (steal_and_pop (2 ^ k) source dest count_fn ≡ (err empty, source, dest)))
            ⊎ ((x : ℕ) × (0 < n)
                × (r ≡ ok (x, n - 1))
                × Moved k small source dest source' dest' (x ∷ []) (n - 1))
      go zero e = inl (e, steal_and_pop_empty source dest count_fn v e)
      go (suc n) e =
          let last : suc n - 1 ≡ n = omega arith in
          rw (steal_and_pop_some source dest count_fn v n e, e, last)
            (inr (
              read_at (2 ^ k) source.buffer (add_u32 source.head n),
              omega arith,
              refl,
              Moved-steal_and_pop source dest n v u (omega arith)
                  (omega (arith, room_and_one dest u)),
            ))
