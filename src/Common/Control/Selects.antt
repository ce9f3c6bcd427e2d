-- ===== src/Common/Control/Selects.antt =====
-- Which branch `Select` of async/src/common/control.rs takes, and when.
use uefi_async.Base.{
  ℕ, zero, suc, ◌≡◌, refl, subst, ready, pending, PollFn, Finishes, leb, if◌then◌else◌, arith,
}
use uefi_async.Common.Control.{Either, left, right, select_poll, new_select}

-- The faster of two futures, with its side; at a tie the head.
abbrev pub select_outcome : {A B : Type 0} → ℕ → A → ℕ → B → ℕ × Either A B
select_outcome n a m b = if leb n m then (n, left a) else (m, right b)

abbrev first : {A B : Type 0} → ℕ → A → ℕ → B → ℕ × Either A B
first zero a m b = (0, left a)
first (suc n) a zero b = (0, right b)
first (suc n) a (suc m) b = let (k, out) = first n a m b in (suc k, out)

first_lem : {A B : Type 0} (n : ℕ) (a : A) (m : ℕ) (b : B) → first n a m b ≡ select_outcome n a m b
first_lem zero a m b = ground arith
first_lem (suc n) a zero b = ground arith
first_lem (suc n) a (suc m) b = ground (arith, first_lem n a m b)

module _ {H T A B W : Type 0} (ph : PollFn H A W) (pt : PollFn T B W) where
  module _ (h : H) (t : T) (w : W) where
    select_head :
        (a : A) → (ph h w).0 ≡ ready a → (select_poll ph pt (new_select h t) w).0 ≡ ready (left a)
    unfolding select_poll new_select
    select_head a p = ground arith

    select_tail :
        (b : B)
        → (ph h w).0 ≡ pending
        → (pt t (ph h w).2).0 ≡ ready b
        → (select_poll ph pt (new_select h t) w).0 ≡ ready (right b)
    unfolding select_poll new_select
    select_tail b p q = ground arith

    select_pending :
        (ph h w).0 ≡ pending
        → (pt t (ph h w).2).0 ≡ pending
        → select_poll ph pt (new_select h t) w
          ≡ (pending, new_select (ph h w).1 (pt t (ph h w).2).1, (pt t (ph h w).2).2)
    unfolding select_poll new_select
    select_pending p q = ground arith

  select-Finishes-first :
      (n m : ℕ) (a : A) (b : B) (h : H) (t : T)
      → Finishes ph n a h
      → Finishes pt m b t
      → let (k, out) = first n a m b in Finishes (select_poll ph pt) k out (new_select h t)
  select-Finishes-first zero m a b h t fh ft = λ w. select_head h t w a (fh w)
  select-Finishes-first (suc n) zero a b h t fh ft = λ w. select_tail h t w b (fh w).0 (ft _)
  select-Finishes-first (suc n) (suc m) a b h t fh ft = λ w.
      let (p, rest) = fh w in
      let (p', rest') = ft (ph h w).2 in
      rw (select_pending h t w p p') (refl, select-Finishes-first n m a b _ _ rest rest')

  -- A `Select` of two futures that finish after `n` and `m` pending polls is ready with the output
  -- of the faster one (of the head at a tie), on its side, at the poll at which that one finishes, and
  -- pending before.
  pub select-Finishes :
      (n m : ℕ) (a : A) (b : B) (h : H) (t : T)
      → Finishes ph n a h
      → Finishes pt m b t
      → let (k, out) = select_outcome n a m b in Finishes (select_poll ph pt) k out (new_select h t)
  select-Finishes n m a b h t fh ft =
      subst (λ (o : ℕ × Either A B). Finishes (select_poll ph pt) o.0 o.1 (new_select h t))
        (first_lem n a m b) (select-Finishes-first n m a b h t fh ft)
