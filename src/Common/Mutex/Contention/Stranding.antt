-- ===== src/Common/Mutex/Contention/Stranding.antt =====
-- A guard dropped between the link of a future and the store of its waker (async/src/common/mutex.rs).
use uefi_async.Base.{
  ℕ, suc, ◌-◌, ◌<◌, ◌≡◌, refl, ap, ◌∙◌, subst, List, [], ◌∷◌, ◌++◌, true, false, not, none, some,
  arith, if◌then◌else◌, assign,
}
use uefi_async.Common.Mutex.{AsyncMutex, link, pop_waker}
use uefi_async.Common.Mutex.Nodups.{NotIn}
use uefi_async.Common.Mutex.Queue.{IsQueue, Keeps, link-Keeps}
use uefi_async.Common.Mutex.Wakes.{wake_next, wakers, pop_waker_refines, Woke, wake_next-skip}
use uefi_async.Common.Mutex.Contention.{
  Phase, idle, failed, enlisted, parking, can_turn, System, Event, turn, release, wake_one,
  with_phase, look, park, turn_at, clear_flag, wake_waiter, woke_with, poll, enabled, act, step,
  run,
}
use uefi_async.Common.Mutex.Contention.Soundness.{Sound}
use uefi_async.Common.Mutex.Contention.Outcomes.{Polled, poll_lem}
use uefi_async.Common.Mutex.Contention.Steps.{enlist_first, enlist-Sound-first}

module _ {A : Type 0} where
  -- A future that waits for its waker, in a queue that does not have it, and was not marked.
  pub record Stranded (i : ℕ) (s : System A) (xs : List ℕ) : Type 0 where
    pub waits : s.phase i ≡ idle
    pub linked : s.linked i ≡ true
    pub unmarked : (s.mutex.nodes i).woken ≡ false
    pub queue : IsQueue s.mutex xs
    pub out : NotIn i xs

  step-turn :
      (i : ℕ) (p : Phase) (s : System A)
      → 0 < i
      → s.phase i ≡ p
      → can_turn p ≡ true
      → step (turn i) s ≡ turn_at p i s
  unfolding step enabled act
  step-turn i p s pos e c = rw e (ground (arith, c))

  run_cons :
      (e : Event) (es : List Event) (s t : System A) → step e s ≡ some t → run (e ∷ es) s ≡ run es t
  unfolding run
  run_cons e es s t r = ap (λ o. elim o [ none ↦ none | some u ↦ run es u ]) r

  step_release : (s : System A) → 0 < s.guards → step release s ≡ some (clear_flag s)
  unfolding step enabled act
  step_release s pos = ground arith

  step_wake :
      (s : System A) (m : AsyncMutex A)
      → 0 < s.releasing
      → pop_waker (suc s.links) s.mutex ≡ some (none, m)
      → step wake_one s ≡ some (record s { mutex = m; releasing = s.releasing - 1 })
  unfolding step enabled act wake_waiter woke_with
  step_wake s m pos r = ground (arith, r)

  -- The queue of one future that has no waker yet.
  skip_one :
      (i fuel : ℕ) (m : AsyncMutex A)
      → IsQueue m (i ∷ [])
      → (m.nodes i).waker ≡ none
      → (m' : AsyncMutex A) × (pop_waker (suc (suc fuel)) m ≡ some (none, m'))
        × IsQueue m' []
        × Keeps m m'
  unfolding wake_next
  skip_one i fuel m h e =
      subst (Woke (suc (suc fuel)) m) (wake_next-skip (wakers m) i [] e)
        (pop_waker_refines (suc (suc fuel)) m (i ∷ []) h (omega arith))

  parks :
      (i : ℕ) (s : System A)
      → 0 < i
      → s.phase i ≡ enlisted
      → (s.mutex.nodes i).woken ≡ false
      → run (turn i ∷ turn i ∷ []) s ≡ some (park i (look i s))
  unfolding look turn_at can_turn run
  parks i s pos e w =
      run_cons (turn i) (turn i ∷ []) s (look i s) (step-turn i enlisted s pos e refl)
      ∙ run_cons (turn i) [] (look i s) (park i (look i s))
          (step-turn i parking (look i s) pos (ground (arith, w)) refl)

  parked-Stranded :
      (i : ℕ) (s : System A)
      → s.linked i ≡ true
      → (s.mutex.nodes i).woken ≡ false
      → IsQueue s.mutex []
      → Stranded i (park i (look i s)) []
  unfolding look park
  parked-Stranded i s l w h = record {
    waits = ground arith;
    linked = l;
    unmarked = ground (arith, w);
    queue = record { chain = h.chain; ending = h.ending; distinct = tt };
    out = tt;
  }

  -- A future found the flag set while no other waited, and has not linked its node yet. Then it links
  -- its node, the guard is dropped, which clears the flag and takes the node from the queue as one of
  -- a dropped future, for it has no waker yet, and the future reads that it is not marked and stores
  -- its waker. All these steps are possible, and at the end the flag is clear, the poll is pending,
  -- the future is in no queue and not marked, and no waker was called.
  pub lost_wake :
      (i : ℕ) (s : System A)
      → 0 < i
      → Sound s []
      → s.phase i ≡ failed
      → s.linked i ≡ false
      → (s.mutex.nodes i).waker ≡ none
      → (s.mutex.nodes i).woken ≡ false
      → 0 < s.guards
      → (s' : System A) × (run (turn i ∷ release ∷ wake_one ∷ turn i ∷ turn i ∷ []) s ≡ some s')
        × (s'.mutex.locked ≡ false)
        × Stranded i s' []
        × (s'.wakes ≡ s.wakes)
  unfolding turn_at can_turn clear_flag look park
  lost_wake i s pos h ph l none_yet unmarked held =
      let t = with_phase i enlisted (record s {
        mutex = link i s.mutex;
        links = suc s.links;
        linked = assign s.linked i true;
      }) in
      let u = clear_flag t in
      let k = link-Keeps i s.mutex in
      let first = step-turn i failed s pos ph refl ∙ ap (λ v. some v) (enlist_first i s l) in
      let q =
        subst (λ v. Sound v (i ∷ [])) (enlist_first i s l) (enlist-Sound-first i s [] pos l h) in
      let q' : IsQueue u.mutex (i ∷ []) = record {
        chain = q.queue.chain;
        ending = q.queue.ending;
        distinct = q.queue.distinct;
      } in
      let (m, ran, empty, keeps) = skip_one i s.links u.mutex q' (k.waker i ∙ none_yet) in
      let v = record u { mutex = m; releasing = u.releasing - 1 } in
      let w = keeps.woken i ∙ k.woken i ∙ unmarked in
      (
        park i (look i v),
        run_cons (turn i) _ s t first
            ∙ run_cons release _ t u (step_release t held)
            ∙ run_cons wake_one _ u v (step_wake u m (omega arith) ran)
            ∙ parks i v pos (ground arith) w,
        keeps.locked,
        parked-Stranded i v (ground arith) w empty,
        refl,
      )

  -- Such a future is not put back in the queue by a poll that finds the flag set: it is pending, and
  -- in no queue and not marked afterwards, so that no guard that is dropped later wakes it.
  poll-Stranded :
      (i : ℕ) (s : System A) (xs : List ℕ)
      → 0 < i
      → Sound s xs
      → Stranded i s xs
      → s.mutex.locked ≡ true
      → (s' : System A) × (poll i s ≡ some (false, s')) × Stranded i s' xs
  poll-Stranded i s xs pos h lost held =
      let (s', ran, after) = poll_lem i s xs pos h in
      (s', ran ∙ ap (λ b. some (not b, s')) held, still s' (rw⁻¹ (held, lost.unmarked) after))
    where
      still : (s' : System A) → Polled i true false s s' xs → Stranded i s' xs
      still s' after = record {
        waits = after.phase;
        linked = after.is_linked;
        unmarked = after.mark;
        queue =
            subst (λ b. IsQueue s'.mutex (if b then xs else xs ++ i ∷ [])) lost.linked
              after.sound.queue;
        out = lost.out;
      }
