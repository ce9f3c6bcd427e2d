-- ===== src/Common/Control/JoinAlls.antt =====
-- When `JoinAll` of async/src/common/control.rs finishes, and with what.
use uefi_async.Base.{
  ℕ, zero, suc, ◌≡◌, refl, Option, none, some, ready, pending, PollFn, Finishes, max, arith, subst,
}
use uefi_async.Common.Control.{JoinAll, join_all_poll, new_join_all}
use uefi_async.Common.Control.Joins.{slower, slower-eq-max}

module _ {H T A B W : Type 0} (ph : PollFn H A W) (pt : PollFn T B W) where
  all_head_left :
      (n : ℕ) (a : A) (b : B) (h : H) (t : T)
      → Finishes ph n a h
      → Finishes
          (join_all_poll ph pt)
          n
          (a, b)
          (record { head = h; tail = t; head_res = none; tail_res = some b })
  all_head_left zero a b h t fh = λ w. unfold join_all_poll in ground (arith, fh w)
  all_head_left (suc n) a b h t fh = λ w.
      let (p, rest) = fh w in
      let step : join_all_poll ph pt
            (record { head = h; tail = t; head_res = none; tail_res = some b }) w
          ≡ (
            pending,
            record { head = (ph h w).1; tail = t; head_res = none; tail_res = some b },
            (ph h w).2,
          ) =
        unfold join_all_poll in ground (arith, p) in
      rw step (refl, all_head_left n a b _ _ rest)

  all_tail_left :
      (n : ℕ) (a : A) (b : B) (h : H) (t : T)
      → Finishes pt n b t
      → Finishes
          (join_all_poll ph pt)
          n
          (a, b)
          (record { head = h; tail = t; head_res = some a; tail_res = none })
  all_tail_left zero a b h t ft = λ w. unfold join_all_poll in ground (arith, ft w)
  all_tail_left (suc n) a b h t ft = λ w.
      let (p, rest) = ft w in
      let step : join_all_poll ph pt
            (record { head = h; tail = t; head_res = some a; tail_res = none }) w
          ≡ (
            pending,
            record { head = h; tail = (pt t w).1; head_res = some a; tail_res = none },
            (pt t w).2,
          ) =
        unfold join_all_poll in ground (arith, p) in
      rw step (refl, all_tail_left n a b _ _ rest)

  abbrev all_state : H → T → Option A → Option B → JoinAll H T A B
  all_state h t a b = record { head = h; tail = t; head_res = a; tail_res = b }

  module _ (h : H) (t : T) (w : W) where
    all_both_ready :
        (a : A) (b : B)
        → (ph h w).0 ≡ ready a
        → (pt t (ph h w).2).0 ≡ ready b
        → (join_all_poll ph pt (all_state h t none none) w).0 ≡ ready (a, b)
    unfolding join_all_poll
    all_both_ready a b p q = ground arith

    all_tail_pending :
        (a : A)
        → (ph h w).0 ≡ ready a
        → (pt t (ph h w).2).0 ≡ pending
        → join_all_poll ph pt (all_state h t none none) w
          ≡ (pending, all_state (ph h w).1 (pt t (ph h w).2).1 (some a) none, (pt t (ph h w).2).2)
    unfolding join_all_poll
    all_tail_pending a p q = ground arith

    all_head_pending :
        (b : B)
        → (ph h w).0 ≡ pending
        → (pt t (ph h w).2).0 ≡ ready b
        → join_all_poll ph pt (all_state h t none none) w
          ≡ (pending, all_state (ph h w).1 (pt t (ph h w).2).1 none (some b), (pt t (ph h w).2).2)
    unfolding join_all_poll
    all_head_pending b p q = ground arith

    all_both_pending :
        (ph h w).0 ≡ pending
        → (pt t (ph h w).2).0 ≡ pending
        → join_all_poll ph pt (all_state h t none none) w
          ≡ (pending, all_state (ph h w).1 (pt t (ph h w).2).1 none none, (pt t (ph h w).2).2)
    unfolding join_all_poll
    all_both_pending p q = ground arith

  join_all-Finishes-slower :
      (n m : ℕ) (a : A) (b : B) (h : H) (t : T)
      → Finishes ph n a h
      → Finishes pt m b t
      → Finishes (join_all_poll ph pt) (slower n m) (a, b) (all_state h t none none)
  join_all-Finishes-slower zero zero a b h t fh ft = λ w. all_both_ready h t w a b (fh w) (ft _)
  join_all-Finishes-slower zero (suc m) a b h t fh ft = λ w.
      let (p, rest) = ft (ph h w).2 in
      rw (all_tail_pending h t w a (fh w) p) (refl, all_tail_left m a b _ _ rest)
  join_all-Finishes-slower (suc n) zero a b h t fh ft = λ w.
      let (p, rest) = fh w in
      rw (all_head_pending h t w b p (ft (ph h w).2)) (refl, all_head_left n a b _ _ rest)
  join_all-Finishes-slower (suc n) (suc m) a b h t fh ft = λ w.
      let (p, rest) = fh w in
      let (p', rest') = ft (ph h w).2 in
      rw (all_both_pending h t w p p') (refl, join_all-Finishes-slower n m a b _ _ rest rest')

  -- A `JoinAll` of two futures that finish after `n` and `m` pending polls is ready with both
  -- outputs at the poll at which the slower one finishes, and pending before.
  pub join_all-Finishes :
      (n m : ℕ) (a : A) (b : B) (h : H) (t : T)
      → Finishes ph n a h
      → Finishes pt m b t
      → Finishes (join_all_poll ph pt) (max n m) (a, b) (new_join_all h t)
  unfolding new_join_all
  join_all-Finishes n m a b h t fh ft =
      subst (λ k. Finishes (join_all_poll ph pt) k (a, b) (all_state h t none none))
        (slower-eq-max n m) (join_all-Finishes-slower n m a b h t fh ft)
