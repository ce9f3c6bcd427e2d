-- ===== src/Common/Control/TryJoins.antt =====
-- When `TryJoin` of async/src/common/control.rs finishes, and with what.
use uefi_async.Base.{
  ℕ, zero, suc, ◌≡◌, refl, Bool, true, false, ready, pending, PollFn, Finishes, max, arith, subst,
  leb, if◌then◌else◌,
}
use uefi_async.Common.Control.{Join, Tried, ok, err, try_join_poll}
use uefi_async.Common.Control.Joins.{new_join}

-- When two fallible futures are done together, and how: with the first error, the head's at a tie,
-- or else with the slower of the two.
abbrev pub try_outcome : {E : Type 0} → ℕ → Tried E → ℕ → Tried E → ℕ × Tried E
try_outcome n ok m ok = (max n m, ok)
try_outcome n (err e) m ok = (n, err e)
try_outcome n ok m (err d) = (m, err d)
try_outcome n (err e) m (err d) = if leb n m then (n, err e) else (m, err d)

-- The same, poll by poll.
abbrev race : {E : Type 0} → ℕ → Tried E → ℕ → Tried E → ℕ × Tried E
race zero (err e) m q = (0, err e)
race zero ok m q = (m, q)
race (suc n) r zero (err d) = (0, err d)
race (suc n) r zero ok = (suc n, r)
race (suc n) r (suc m) q = let (k, out) = race n r m q in (suc k, out)

race-eq-try_outcome :
    {E : Type 0} (n : ℕ) (r : Tried E) (m : ℕ) (q : Tried E) → race n r m q ≡ try_outcome n r m q
race-eq-try_outcome zero ok m ok = ground arith
race-eq-try_outcome zero ok m (err d) = refl
race-eq-try_outcome zero (err e) m ok = refl
race-eq-try_outcome zero (err e) m (err d) = ground arith
race-eq-try_outcome (suc n) ok zero ok = ground arith
race-eq-try_outcome (suc n) (err e) zero ok = refl
race-eq-try_outcome (suc n) ok zero (err d) = refl
race-eq-try_outcome (suc n) (err e) zero (err d) = ground arith
race-eq-try_outcome {E} (suc n) ok (suc m) ok =
    ground (arith, race-eq-try_outcome {E = E} n ok m ok)
race-eq-try_outcome (suc n) ok (suc m) (err d) = ground (arith, race-eq-try_outcome n ok m (err d))
race-eq-try_outcome (suc n) (err e) (suc m) ok = ground (arith, race-eq-try_outcome n (err e) m ok)
race-eq-try_outcome (suc n) (err e) (suc m) (err d) =
    ground (arith, race-eq-try_outcome n (err e) m (err d))

module _ {H T W E : Type 0} (ph : PollFn H (Tried E) W) (pt : PollFn T (Tried E) W) where
  abbrev state : H → T → Bool → Bool → Join H T
  state h t head_done tail_done = record {
    head = h;
    tail = t;
    head_done = head_done;
    tail_done = tail_done;
  }

  -- The polls that leave the join pending.
  left_pending :
      (h : H) (t : T) (w : W)
      → (ph h w).0 ≡ pending
      → try_join_poll ph pt (state h t false true) w
        ≡ (pending, state (ph h w).1 t false true, (ph h w).2)
  unfolding try_join_poll
  left_pending h t w p = ground arith

  right_pending :
      (h : H) (t : T) (w : W)
      → (pt t w).0 ≡ pending
      → try_join_poll ph pt (state h t true false) w
        ≡ (pending, state h (pt t w).1 true false, (pt t w).2)
  unfolding try_join_poll
  right_pending h t w p = ground arith

  module _ (h : H) (t : T) (w : W) where
    abbrev h' : H
    h' = (ph h w).1

    abbrev w' : W
    w' = (ph h w).2

    abbrev t' : T
    t' = (pt t w').1

    both_pending :
        (ph h w).0 ≡ pending
        → (pt t w').0 ≡ pending
        → try_join_poll ph pt (new_join h t) w ≡ (pending, state h' t' false false, (pt t w').2)
    unfolding try_join_poll
    both_pending p q = ground arith

    tail_pending :
        (ph h w).0 ≡ ready ok
        → (pt t w').0 ≡ pending
        → try_join_poll ph pt (new_join h t) w ≡ (pending, state h' t' true false, (pt t w').2)
    unfolding try_join_poll
    tail_pending p q = ground arith

    head_pending :
        (ph h w).0 ≡ pending
        → (pt t w').0 ≡ ready ok
        → try_join_poll ph pt (new_join h t) w ≡ (pending, state h' t' false true, (pt t w').2)
    unfolding try_join_poll
    head_pending p q = ground arith

    tail_error :
        (e : E)
        → (ph h w).0 ≡ pending
        → (pt t w').0 ≡ ready (err e)
        → (try_join_poll ph pt (new_join h t) w).0 ≡ ready (err e)
    unfolding try_join_poll
    tail_error e p q = ground arith

    head_error :
        (e : E)
        → (ph h w).0 ≡ ready (err e)
        → (try_join_poll ph pt (new_join h t) w).0 ≡ ready (err e)
    unfolding try_join_poll
    head_error e p = ground arith

    both_ready :
        (q : Tried E)
        → (ph h w).0 ≡ ready ok
        → (pt t w').0 ≡ ready q
        → (try_join_poll ph pt (new_join h t) w).0 ≡ ready q
    unfolding try_join_poll
    both_ready ok p q = ground arith
    both_ready (err e) p q = ground arith

  try_head_left :
      (n : ℕ) (r : Tried E) (h : H) (t : T)
      → Finishes ph n r h
      → Finishes (try_join_poll ph pt) n r (state h t false true)
  try_head_left zero r h t fh = λ w. last r w (fh w)
    where
      last :
          (r : Tried E) (w : W)
          → (ph h w).0 ≡ ready r
          → (try_join_poll ph pt (state h t false true) w).0 ≡ ready r
      last ok w p = unfold try_join_poll in ground arith
      last (err e) w p = unfold try_join_poll in ground arith
  try_head_left (suc n) r h t fh = λ w.
      let (p, rest) = fh w in rw (left_pending h t w p) (refl, try_head_left n r (ph h w).1 t rest)

  try_tail_left :
      (n : ℕ) (r : Tried E) (h : H) (t : T)
      → Finishes pt n r t
      → Finishes (try_join_poll ph pt) n r (state h t true false)
  try_tail_left zero r h t ft = λ w. last r w (ft w)
    where
      last :
          (r : Tried E) (w : W)
          → (pt t w).0 ≡ ready r
          → (try_join_poll ph pt (state h t true false) w).0 ≡ ready r
      last ok w p = unfold try_join_poll in ground arith
      last (err e) w p = unfold try_join_poll in ground arith
  try_tail_left (suc n) r h t ft = λ w.
      let (p, rest) = ft w in rw (right_pending h t w p) (refl, try_tail_left n r h (pt t w).1 rest)

  try_join-Finishes-race :
      (n m : ℕ) (r q : Tried E) (h : H) (t : T)
      → Finishes ph n r h
      → Finishes pt m q t
      → let (k, out) = race n r m q in Finishes (try_join_poll ph pt) k out (new_join h t)
  try_join-Finishes-race zero zero (err e) q h t fh ft = λ w. head_error h t w e (fh w)
  try_join-Finishes-race zero (suc m) (err e) q h t fh ft = λ w. head_error h t w e (fh w)
  try_join-Finishes-race zero zero ok q h t fh ft = λ w. both_ready h t w q (fh w) (ft (ph h w).2)
  try_join-Finishes-race zero (suc m) ok q h t fh ft = λ w.
      let (p, rest) = ft (ph h w).2 in
      rw (tail_pending h t w (fh w) p) (refl, try_tail_left m q _ _ rest)
  try_join-Finishes-race (suc n) zero r ok h t fh ft = λ w.
      let (p, rest) = fh w in
      rw (head_pending h t w p (ft (ph h w).2)) (refl, try_head_left n r _ _ rest)
  try_join-Finishes-race (suc n) zero r (err d) h t fh ft =
      λ w. tail_error h t w d (fh w).0 (ft (ph h w).2)
  try_join-Finishes-race (suc n) (suc m) r q h t fh ft = λ w.
      let (p, rest) = fh w in
      let (p', rest') = ft (ph h w).2 in
      rw (both_pending h t w p p') (refl, try_join-Finishes-race n m r q _ _ rest rest')

  -- A `try_join!` of two futures that finish after `n` and `m` pending polls with `r` and `q` is
  -- pending until its outcome is settled, and is then ready with it.
  pub try_join-Finishes :
      (n m : ℕ) (r q : Tried E) (h : H) (t : T)
      → Finishes ph n r h
      → Finishes pt m q t
      → let (k, out) = try_outcome n r m q in Finishes (try_join_poll ph pt) k out (new_join h t)
  try_join-Finishes n m r q h t fh ft =
      subst (λ (o : ℕ × Tried E). Finishes (try_join_poll ph pt) o.0 o.1 (new_join h t))
        (race-eq-try_outcome n r m q) (try_join-Finishes-race n m r q h t fh ft)
