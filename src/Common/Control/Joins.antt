-- ===== src/Common/Control/Joins.antt =====
-- When `Join` of async/src/common/control.rs finishes.
use uefi_async.Base.{ℕ, zero, suc, ◌≡◌, refl, true, false, PollFn, Finishes, max, arith, subst}
use uefi_async.Common.Control.{Join, join_poll}

abbrev pub new_join : {H T : Type 0} → H → T → Join H T
new_join h t = record { head = h; tail = t; head_done = false; tail_done = false }

abbrev pub slower : ℕ → ℕ → ℕ
slower zero m = m
slower (suc n) zero = suc n
slower (suc n) (suc m) = suc (slower n m)

pub slower-eq-max : (n m : ℕ) → slower n m ≡ max n m
slower-eq-max zero m = omega arith
slower-eq-max (suc n) zero = omega arith
slower-eq-max (suc n) (suc m) = omega (arith, slower-eq-max n m)

module _ {H T W : Type 0} (ph : PollFn H (Unit {0}) W) (pt : PollFn T (Unit {0}) W) where
  join_head_left :
      (n : ℕ) (h : H) (t : T)
      → Finishes ph n tt h
      → Finishes
          (join_poll ph pt)
          n
          tt
          (record { head = h; tail = t; head_done = false; tail_done = true })
  unfolding join_poll
  join_head_left zero h t fh = λ w. ground (arith, fh w)
  join_head_left (suc n) h t fh =
      λ w. let (p, rest) = fh w in rw p (refl, join_head_left n (ph h w).1 t rest)

  join_tail_left :
      (n : ℕ) (h : H) (t : T)
      → Finishes pt n tt t
      → Finishes
          (join_poll ph pt)
          n
          tt
          (record { head = h; tail = t; head_done = true; tail_done = false })
  unfolding join_poll
  join_tail_left zero h t ft = λ w. ground (arith, ft w)
  join_tail_left (suc n) h t ft =
      λ w. let (p, rest) = ft w in rw p (refl, join_tail_left n h (pt t w).1 rest)

  join-Finishes-slower :
      (n m : ℕ) (h : H) (t : T)
      → Finishes ph n tt h
      → Finishes pt m tt t
      → Finishes (join_poll ph pt) (slower n m) tt (new_join h t)
  unfolding join_poll
  join-Finishes-slower zero zero h t fh ft = λ w. rw (fh w, ft (ph h w).2) refl
  join-Finishes-slower zero (suc m) h t fh ft = λ w.
      let w' = (ph h w).2 in
      let (p, rest) = ft w' in rw (fh w, p) (refl, join_tail_left m (ph h w).1 (pt t w').1 rest)
  join-Finishes-slower (suc n) zero h t fh ft = λ w.
      let w' = (ph h w).2 in
      let (p, rest) = fh w in rw (p, ft w') (refl, join_head_left n (ph h w).1 (pt t w').1 rest)
  join-Finishes-slower (suc n) (suc m) h t fh ft = λ w.
      let w' = (ph h w).2 in
      let (p, rest) = fh w in
      let (q, rest') = ft w' in
      rw (p, q) (refl, join-Finishes-slower n m (ph h w).1 (pt t w').1 rest rest')

  -- A join of two futures that finish after `n` and `m` pending polls is pending until the slower
  -- one has finished, and is ready at that poll.
  pub join-Finishes :
      (n m : ℕ) (h : H) (t : T)
      → Finishes ph n tt h
      → Finishes pt m tt t
      → Finishes (join_poll ph pt) (max n m) tt (new_join h t)
  join-Finishes n m h t fh ft =
      subst (λ k. Finishes (join_poll ph pt) k tt (new_join h t)) (slower-eq-max n m)
        (join-Finishes-slower n m h t fh ft)
