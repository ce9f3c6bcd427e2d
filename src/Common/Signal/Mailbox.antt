-- ===== src/Common/Signal/Mailbox.antt =====
-- The slot and the flag of the multi-core signal (async/src/common/signal.rs) under all orders of steps.
use uefi_async.Base.{
  ◌+◌, ◌<◌, ◌≡◌, arith, true, false, none, some, ◌⊎◌, inl, List, [], ◌∷◌, ap, subst, refl, Option,
}
use uefi_async.Common.Signal.{
  MultiCoreSignal, Step, write, set, unset, clear, check, take, finish, step, is_triggered, new,
  run,
}

-- Data in the slot has its flag set, or a call that will see to one of the two is under way; and who
-- holds the lock has emptied the slot.
pub record Noticed {A : Type 0} (s : MultiCoreSignal A) : Type 0 where
  pub flagged : (is_triggered s.data_ ≡ false) ⊎ (s.has_data ≡ true) ⊎ (0 < s.writers + s.resets)
  pub emptied : (s.taking ≡ false) ⊎ (is_triggered s.data_ ≡ false)

module _ {A : Type 0} where
  step-Noticed :
      (x : Step A) (s s' : MultiCoreSignal A) → Noticed s → step x s ≡ some s' → Noticed s'
  unfolding step
  step-Noticed (write a) s s' h e = ground arith
  step-Noticed set s s' h e = ground arith
  step-Noticed unset s s' h e = ground arith
  step-Noticed clear s s' h e = ground arith
  step-Noticed check s s' h e = ground arith
  step-Noticed take s s' h e = ground arith
  step-Noticed finish s s' h e = ground arith

  new-Noticed : Noticed (new {A = A})
  new-Noticed = record { flagged = inl refl; emptied = inl refl }

  run-Noticed :
      (xs : List (Step A)) (s s' : MultiCoreSignal A) → Noticed s → run xs s ≡ some s' → Noticed s'
  run-Noticed [] s s' h e = subst Noticed (some_inj s s' e) h
    where
      some_inj : (u v : MultiCoreSignal A) → some u ≡ some v → u ≡ v
      some_inj u v e = ap (λ o. elim o [ none ↦ u | some w ↦ w ]) e
  run-Noticed (x ∷ xs) s s' h e = go (λ t h' r. run-Noticed xs t s' h' r) (step x s) refl e
    where
      go :
          ((t : MultiCoreSignal A) → Noticed t → run xs t ≡ some s' → Noticed s')
          → (o : Option (MultiCoreSignal A)) → step x s ≡ o
          → (elim o [ none ↦ none | some t ↦ run xs t ]) ≡ some s'
          → Noticed s'
      go ih none q r = absurd (ground (arith, r))
      go ih (some t) q r = ih t (step-Noticed x s t h q) r

  Noticed-poll :
      (a : A) (s : MultiCoreSignal A)
      → Noticed s
      → s.data_ ≡ some a
      → s.writers ≡ 0
      → s.resets ≡ 0
      → run (check ∷ take ∷ finish ∷ []) s
        ≡ some (record s { data_ = none; has_data = false; taking = false })
  unfolding step
  Noticed-poll a s h d w r = ground (arith, h.flagged, h.emptied)

  -- However the calls on a new signal come between one another: when data is in the slot and no call
  -- of `signal` or `reset` is under way, a poll is possible and finds it, and leaves the slot empty,
  -- the flag clear and the other calls as they are.
  pub mailbox_delivers :
      (xs : List (Step A)) (a : A) (s : MultiCoreSignal A)
      → run xs new ≡ some s
      → s.data_ ≡ some a
      → s.writers ≡ 0
      → s.resets ≡ 0
      → run (check ∷ take ∷ finish ∷ []) s
        ≡ some (record s { data_ = none; has_data = false; taking = false })
  mailbox_delivers xs a s e d w r = Noticed-poll a s (run-Noticed xs new s new-Noticed e) d w r
