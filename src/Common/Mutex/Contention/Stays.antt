-- ===== src/Common/Mutex/Contention/Stays.antt =====
-- What the steps of others do to a future whose wake was lost (async/src/common/mutex.rs).
use uefi_async.Base.{
  ℕ, suc, ◌-◌, ◌≡◌, ◌≢◌, refl, sym, ap, ◌∙◌, subst, List, [], ◌∷◌, ◌++◌, true, Option, none, some,
  arith, All, inl, inr, Option-cases,
}
use uefi_async.Common.Mutex.{AsyncMutex}
use uefi_async.Common.Mutex.Nodups.{NotIn}
use uefi_async.Common.Mutex.Wakes.{
  wake_next-skip, wake_next-parked, wake_next, wakers, waker_of, pop_waker_refines, Woken,
}
use uefi_async.Common.Mutex.Remaining.{All-wake_next}
use uefi_async.Common.Mutex.Contention.{
  System, Event, begin_lock, turn, drop_lock, release, wake_one, begin_future, clear_flag,
  wake_waiter, woke_with, act, enabled, step, run,
}
use uefi_async.Common.Mutex.Contention.Soundness.{Sound}
use uefi_async.Common.Mutex.Contention.Steps.{begin_future-Sound}
use uefi_async.Common.Mutex.Contention.Progress.{
  step-enabled, some_inj, clear_flag-Sound, wake_waiter-Sound,
}
use uefi_async.Common.Mutex.Contention.Stranding.{Stranded}
use uefi_async.Common.Mutex.Contention.Far.{
  Other, Own, Far, quiet, begin_future-Far, clear_flag-Far, Passes, turn_at-Passes,
  end_future-Passes, Far-then,
}

-- What is found is another waiter, with the waker of another future.
abbrev Elsewhere : ℕ → Option (ℕ × ℕ) → Type 0
Elsewhere i none = Unit
Elsewhere i (some (x, w)) = (i ≢ x) × (i ≢ w)

wake_next-Elsewhere :
    (ws : ℕ → Option ℕ) (i : ℕ) (xs : List ℕ)
    → NotIn i xs
    → ((y : ℕ) → i ≢ y → ws y ≢ some i)
    → Elsewhere i (wake_next ws xs).0
unfolding wake_next
wake_next-Elsewhere ws i [] out own = tt
wake_next-Elsewhere ws i (x ∷ xs) (ne, out) own = elim (Option-cases (ws x)) [
  | inl e ↦
      subst (λ p. Elsewhere i p.0) (sym (wake_next-skip ws x xs e))
        (wake_next-Elsewhere ws i xs out own)
  | inr (w, e) ↦
      subst (λ p. Elsewhere i p.0) (sym (wake_next-parked ws x w xs e))
        ((λ k. ne (sym k)), λ k. own x (λ l. ne (sym l)) (e ∙ ap (λ v. some v) (sym k)))
]

module _ {A : Type 0} where
  wake_waiter-Passes :
      (i : ℕ) (s : System A) (xs : List ℕ)
      → Own i s
      → NotIn i xs
      → Sound s xs
      → Passes i s (wake_waiter s)
  unfolding wake_waiter woke_with
  wake_waiter-Passes i s xs h out sound =
      let (t, ran, after) = wake_waiter-Sound s xs sound in
      let (m, ran', queue, woken) =
        pop_waker_refines (suc s.links) s.mutex xs sound.queue (omega (arith, sound.short)) in
      go t ran after (wake_next (wakers s.mutex) xs).0 m woken
        (wake_next-Elsewhere (wakers s.mutex) i xs out h) (ap (woke_with s) ran')
    where
      rest : List ℕ
      rest = (wake_next (wakers s.mutex) xs).1

      away : NotIn i rest
      away = All-wake_next (λ y. y ≢ i) (wakers s.mutex) xs out

      go :
          (t : System A)
          → wake_waiter s ≡ some t
          → Sound t rest
          → (found : Option (ℕ × ℕ)) (m : AsyncMutex A) → Woken found s.mutex m
          → Elsewhere i found
          → wake_waiter s ≡ woke_with s (some (waker_of found, m))
          → Passes i s (wake_waiter s)
      go t ran after none m keeps other ran' =
          let u = record s { mutex = m; releasing = s.releasing - 1 } in
          (
            u,
            ran',
            (rest, subst (λ v. Sound v rest) (some_inj t u (sym ran ∙ ran')) after, away),
            quiet i s u h refl refl (keeps.woken i) (λ y d r. sym (keeps.waker y) ∙ r) refl,
          )
      go t ran after (some (x, w)) m (_, _, ws, marks) (ne, ne') ran' =
          let u = record s { mutex = m; releasing = s.releasing - 1; wakes = w ∷ s.wakes } in
          (
            u,
            ran',
            (rest, subst (λ v. Sound v rest) (some_inj t u (sym ran ∙ ran')) after, away),
            record {
              phase = refl;
              linked = refl;
              mark = ground (arith, marks i, ne);
              own = λ y d r. ground (arith, ws y, r, h y d);
              calls = w ∷ [];
              wakes = refl;
              others = ((λ k. ne' (sym k)), tt);
            },
          )

  act-Passes :
      (i : ℕ) (e : Event) (s : System A) (xs : List ℕ)
      → enabled e s ≡ true
      → Other i e
      → Own i s
      → NotIn i xs
      → Sound s xs
      → Passes i s (act e s)
  unfolding act enabled
  act-Passes i (begin_lock j) s xs on ne h out sound = (
    begin_future j s,
    refl,
    (xs, begin_future-Sound j s xs (ground (arith, on)) sound, out),
    begin_future-Far i j s ne h,
  )
  act-Passes i (turn j) s xs on ne h out sound =
      turn_at-Passes (s.phase j) i j s xs (ground (arith, on)) (ground (arith, on)) ne h out sound
  act-Passes i (drop_lock j) s xs on ne h out sound = end_future-Passes i j s xs ne h out sound
  act-Passes i release s xs on other h out sound = (
    clear_flag s,
    refl,
    (xs, clear_flag-Sound s xs (ground (arith, on)) sound, out),
    clear_flag-Far i s h,
  )
  act-Passes i wake_one s xs on other h out sound = wake_waiter-Passes i s xs h out sound

  -- The state after any run of others, for a future that is in no queue.
  abbrev Passed : ℕ → System A → System A → Type 0
  Passed i s t = ((ys : List ℕ) × Sound t ys × NotIn i ys) × Far i s t

  step-Passed :
      (i : ℕ) (e : Event) (s t : System A) (xs : List ℕ)
      → Other i e
      → Own i s
      → NotIn i xs
      → Sound s xs
      → step e s ≡ some t
      → Passed i s t
  unfolding step
  step-Passed i e s t xs other h out sound r =
      let on = step-enabled e s t r in
      let (u, ran, after, far) = act-Passes i e s xs on other h out sound in
      subst (Passed i s) (some_inj u t (sym ran ∙ rw on at r)) (after, far)

  run-Passed :
      (i : ℕ) (es : List Event) (s t : System A) (xs : List ℕ)
      → All (Other i) es
      → Own i s
      → NotIn i xs
      → Sound s xs
      → run es s ≡ some t
      → Passed i s t
  unfolding run
  run-Passed i [] s t xs others h out sound r =
      subst (Passed i s) (some_inj s t r)
        ((xs, sound, out), quiet i s s h refl refl refl (λ y d q. q) refl)
  run-Passed i (e ∷ es) s t xs (other, others) h out sound r =
      go (λ u ys. run-Passed i es u t ys others) (step e s) refl r
    where
      go :
          ((u : System A) (ys : List ℕ)
            → Own i u
            → NotIn i ys
            → Sound u ys
            → run es u ≡ some t
            → Passed i u t)
          → (o : Option (System A)) → step e s ≡ o
          → (elim o [ none ↦ none | some u ↦ run es u ]) ≡ some t
          → Passed i s t
      go ih none q r = absurd (ground (arith, r))
      go ih (some u) q r =
          let ((ys, after, away), far) = step-Passed i e s u xs other h out sound q in
          let (last, far') = ih u ys far.own away after r in (last, Far-then i s u t far far')

  -- A future whose wake was lost, and whose waker is in no node but its own, is never woken by the
  -- others: after any steps of other futures and guards it still waits outside the queue with no mark,
  -- and none of these steps has called its waker.
  pub run-Stranded :
      (i : ℕ) (es : List Event) (s t : System A) (xs : List ℕ)
      → Sound s xs
      → Stranded i s xs
      → Own i s
      → All (Other i) es
      → run es s ≡ some t
      → (ys : List ℕ) × Stranded i t ys
        × (calls : List ℕ) × (t.wakes ≡ calls ++ s.wakes)
        × NotIn i calls
  run-Stranded i es s t xs sound lost h others r =
      let ((ys, after, away), far) = run-Passed i es s t xs others h lost.out sound r in
      (
        ys,
        record {
          waits = far.phase ∙ lost.waits;
          linked = far.linked ∙ lost.linked;
          unmarked = far.mark ∙ lost.unmarked;
          queue = after.queue;
          out = away;
        },
        far.calls,
        far.wakes,
        far.others,
      )
