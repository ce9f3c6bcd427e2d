-- ===== src/Common/Mutex/Contention/Progress.antt =====
-- The invariant of async/src/common/mutex.rs over whole steps and runs.
use uefi_async.Base.{
  ℕ, suc, ◌-◌, ◌<◌, ◌≡◌, ◌≢◌, refl, sym, ap, ◌∙◌, subst, List, [], ◌∷◌, true, Option, none, some,
  arith, if◌then◌else◌, All, Bool-cases, inl, inr,
}
use uefi_async.Common.Mutex.{Waiter, AsyncMutex, drop_future}
use uefi_async.Common.Mutex.Queue.{IsQueue}
use uefi_async.Common.Mutex.Unlink.{erase, unlink_refines}
use uefi_async.Common.Mutex.Wakes.{wake_next, wakers, pop_waker_refines, waker_of, Woken-locked}
use uefi_async.Common.Mutex.Remaining.{
  All-map, All-zip, All-erase, erase-short, erase-NotIn, All-wake_next, wake_next-short,
}
use uefi_async.Common.Mutex.Contention.{
  Phase, absent, idle, took, failed, enlisted, flagged, parking, owner, is_alive, can_turn, System,
  Event, begin_lock, turn, drop_lock, release, wake_one, start, with_phase, begin_future, attempt,
  ended_with, woke_with, enlist, look, park, retry, then_phase, then_retry, turn_at, end_future,
  clear_flag, wake_waiter, enabled, act, step, run,
}
use uefi_async.Common.Mutex.Contention.Soundness.{
  Waits, Sound, Soundly, start-Sound, unlinked-NotIn, with_phase-Sound, with_phase-Sound-out,
}
use uefi_async.Common.Mutex.Contention.Steps.{
  begin_future-Sound, attempt-Sound, leave-Sound, look-Sound, park-Sound, retry-Sound, enlist-Sound,
  joined,
}

module _ {A : Type 0} where
  -- An end of a step: it is possible, and the invariant holds after it.
  abbrev pub Steps : Option (System A) → Type 0
  Steps o = (s' : System A) × (o ≡ some s') × Soundly s'

  -- The same with the queue after it.
  abbrev pub StepsTo : Option (System A) → List ℕ → Type 0
  StepsTo o ys = (s' : System A) × (o ≡ some s') × Sound s' ys

  in-Steps : (o : Option (System A)) (ys : List ℕ) → StepsTo o ys → Steps o
  in-Steps o ys (s', ran, h) = (s', ran, (ys, h))

  -- The queue without a future that is dropped.
  abbrev pub without : ℕ → System A → List ℕ → List ℕ
  without i s xs = if s.linked i then erase i xs else xs

  pub end_future-Sound :
      (i : ℕ) (s : System A) (xs : List ℕ) → Sound s xs → StepsTo (end_future i s) (without i s xs)
  unfolding end_future ended_with drop_future
  end_future-Sound i s xs h = elim (Bool-cases (s.linked i)) [
    | inl e ↦
        let (m, run, queue, keeps) =
          unlink_refines (suc s.links) i s.mutex xs h.queue (omega (arith, h.short)) in
        let s' = with_phase i absent (record s { mutex = m }) in
        rw e (
          s',
          ap (ended_with i s) run,
          record {
            queue = queue;
            waiting =
                All-zip (Waits s) (λ y. y ≢ i) (Waits s') (erase i xs)
                  (λ y w n. (w.0, ground (arith, w.1, n))) (All-erase (Waits s) i xs h.waiting)
                  (erase-NotIn i xs h.queue.distinct);
            short = omega (arith, h.short, erase-short i xs);
            exclusive = h.exclusive ∙ ap (λ b. if b then 1 else 0) (sym keeps.locked);
          },
        )
    | inr e ↦ rw e (
      with_phase i absent s,
      refl,
      with_phase-Sound-out i absent s xs (unlinked-NotIn i s xs e h) h,
    )
  ]

  pub clear_flag-Sound :
      (s : System A) (xs : List ℕ) → 0 < s.guards → Sound s xs → Sound (clear_flag s) xs
  unfolding clear_flag
  clear_flag-Sound s xs pos h = record {
    queue = record { chain = h.queue.chain; ending = h.queue.ending; distinct = h.queue.distinct };
    waiting = h.waiting;
    short = h.short;
    exclusive = ground (arith, h.exclusive);
  }

  pub wake_waiter-Sound :
      (s : System A) (xs : List ℕ)
      → Sound s xs
      → StepsTo (wake_waiter s) (wake_next (wakers s.mutex) xs).1
  unfolding wake_waiter woke_with
  wake_waiter-Sound s xs h =
      let ws = wakers s.mutex in
      let (m, run, queue, woken) =
        pop_waker_refines (suc s.links) s.mutex xs h.queue (omega (arith, h.short)) in
      after (wake_next ws xs).0 m queue (Woken-locked (wake_next ws xs).0 s.mutex m woken)
        (ap (woke_with s) run)
    where
      rest : List ℕ
      rest = (wake_next (wakers s.mutex) xs).1

      after :
          (found : Option (ℕ × ℕ)) (m : AsyncMutex A)
          → IsQueue m rest
          → m.locked ≡ s.mutex.locked
          → wake_waiter s ≡ woke_with s (some (waker_of found, m))
          → StepsTo (wake_waiter s) rest
      after none m queue e run = (
        record s { mutex = m; releasing = s.releasing - 1 },
        run,
        record {
          queue = queue;
          waiting = All-wake_next (Waits s) (wakers s.mutex) xs h.waiting;
          short = omega (arith, h.short, wake_next-short (wakers s.mutex) xs);
          exclusive = h.exclusive ∙ ap (λ b. if b then 1 else 0) (sym e);
        },
      )
      after (some (x, w)) m queue e run = (
        record s { mutex = m; releasing = s.releasing - 1; wakes = w ∷ s.wakes },
        run,
        record {
          queue = queue;
          waiting = All-wake_next (Waits s) (wakers s.mutex) xs h.waiting;
          short = omega (arith, h.short, wake_next-short (wakers s.mutex) xs);
          exclusive = h.exclusive ∙ ap (λ b. if b then 1 else 0) (sym e);
        },
      )

  turn_at-Sound :
      (p : Phase) (i : ℕ) (s : System A) (xs : List ℕ)
      → 0 < i
      → can_turn p ≡ true
      → Sound s xs
      → Steps (turn_at p i s)
  unfolding turn_at can_turn then_phase then_retry is_alive
  turn_at-Sound absent i s xs pos e h = absurd (ground (arith, e))
  turn_at-Sound idle i s xs pos e h = (attempt i s, refl, (xs, attempt-Sound i s xs h))
  turn_at-Sound took i s xs pos e h =
      let (s', run, _, _, _, _, h') = leave-Sound i s xs h in
      (
        with_phase i owner s',
        ap (then_phase i owner) run,
        (erase i xs, with_phase-Sound i owner s' (erase i xs) refl h'),
      )
  turn_at-Sound failed i s xs pos e h =
      (enlist i s, refl, (joined i s xs, enlist-Sound i s xs pos h))
  turn_at-Sound enlisted i s xs pos e h = (look i s, refl, (xs, look-Sound i s xs h))
  turn_at-Sound flagged i s xs pos e h =
      let (s', run, _, _, _, _, h') = leave-Sound i s xs h in
      (retry i s', ap (then_retry i) run, (erase i xs, retry-Sound i s' (erase i xs) h'))
  turn_at-Sound parking i s xs pos e h = (park i s, refl, (xs, park-Sound i s xs h))
  turn_at-Sound owner i s xs pos e h = absurd (ground (arith, e))

  act-Sound :
      (e : Event) (s : System A) (xs : List ℕ) → enabled e s ≡ true → Sound s xs → Steps (act e s)
  unfolding enabled act
  act-Sound (begin_lock i) s xs e h =
      (begin_future i s, refl, (xs, begin_future-Sound i s xs (ground (arith, e)) h))
  act-Sound (turn i) s xs e h =
      turn_at-Sound (s.phase i) i s xs (ground (arith, e)) (ground (arith, e)) h
  act-Sound (drop_lock i) s xs e h = in-Steps (end_future i s) _ (end_future-Sound i s xs h)
  act-Sound release s xs e h =
      (clear_flag s, refl, (xs, clear_flag-Sound s xs (ground (arith, e)) h))
  act-Sound wake_one s xs e h = in-Steps (wake_waiter s) _ (wake_waiter-Sound s xs h)

  -- In a state that keeps the invariant each event that can happen does happen, with none of its loops
  -- out of fuel, and the invariant holds after it: futures in the queue are alive and linked, so no
  -- node of a dropped future is there; and a guard is held exactly when the flag is set.
  pub step-Sound :
      (e : Event) (s : System A) (xs : List ℕ)
      → enabled e s ≡ true
      → Sound s xs
      → (s' : System A) × (step e s ≡ some s') × ((ys : List ℕ) × Sound s' ys)
  unfolding step
  step-Sound e s xs on h = rw on (act-Sound e s xs on h)

  pub step-enabled : (e : Event) (s t : System A) → step e s ≡ some t → enabled e s ≡ true
  unfolding step
  step-enabled e s t r = elim (Bool-cases (enabled e s)) [
    | inl on ↦ on
    | inr off ↦ absurd (ground (arith, r, off))
  ]

  pub some_inj : (s t : System A) → some s ≡ some t → s ≡ t
  some_inj s t e = ap (λ o. elim o [ none ↦ s | some u ↦ u ]) e

  run-Sound : (es : List Event) (s t : System A) → Soundly s → run es s ≡ some t → Soundly t
  unfolding run
  run-Sound [] s t h r = subst Soundly (some_inj s t r) h
  run-Sound (e ∷ es) s t (xs, h) r = go (λ u h'. run-Sound es u t h') (step e s) refl r
    where
      go :
          ((u : System A) → Soundly u → run es u ≡ some t → Soundly t)
          → (o : Option (System A)) → step e s ≡ o
          → (elim o [ none ↦ none | some u ↦ run es u ]) ≡ some t
          → Soundly t
      go ih none q r = absurd (ground (arith, r))
      go ih (some u) q r =
          let (u', q', h') = step-Sound e s xs (step-enabled e s u q) h in
          ih u (subst Soundly (some_inj u' u (sym q' ∙ q)) h') r

  -- However the steps of futures and guards follow one another from a new mutex, the number of
  -- guards held is one when the flag is set and zero otherwise, and the queue holds distinct nodes of
  -- futures that are alive.
  pub exclusion :
      (value : A) (nodes : ℕ → Waiter) (es : List Event) (s : System A)
      → run es (start value nodes) ≡ some s
      → (s.guards ≡ (if s.mutex.locked then 1 else 0))
        × ((xs : List ℕ) × IsQueue s.mutex xs × All (λ i. is_alive (s.phase i) ≡ true) xs)
  exclusion value nodes es s r =
      let (xs, h) = run-Sound es (start value nodes) s ([], start-Sound value nodes) r in
      (
        h.exclusive,
        (
          xs,
          h.queue,
          All-map (Waits s) (λ i. is_alive (s.phase i) ≡ true) xs (λ i w. w.1) h.waiting,
        ),
      )
