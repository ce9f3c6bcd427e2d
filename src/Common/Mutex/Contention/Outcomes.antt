-- ===== src/Common/Mutex/Contention/Outcomes.antt =====
-- What `LockFuture::poll` of async/src/common/mutex.rs does when nothing comes between its steps.
use uefi_async.Base.{
  ℕ, ◌<◌, ◌≡◌, refl, ap, ◌∙◌, List, ◌∷◌, Bool, true, false, not, ◌&&◌, some, arith, if◌then◌else◌,
  Bool-cases, inl, inr,
}
use uefi_async.Common.Mutex.{try_lock}
use uefi_async.Common.Mutex.Queue.{link-Keeps}
use uefi_async.Common.Mutex.Unlink.{erase, erase-absent}
use uefi_async.Common.Mutex.Contention.{
  idle, owner, is_alive, System, with_phase, leave, enlist, park, retry, then_ready, then_pending,
  poll,
}
use uefi_async.Common.Mutex.Contention.Soundness.{Sound, unlinked-NotIn, with_phase-Sound}
use uefi_async.Common.Mutex.Contention.Steps.{
  grant, grant-Sound, leave-Sound, park-Sound, retry-Sound, enlist-Sound, joined,
}

module _ {A : Type 0} where
  poll_free :
      (i : ℕ) (s : System A)
      → s.mutex.locked ≡ false
      → poll i s
        ≡ (if s.linked i then then_ready i (leave i (grant s)) else then_ready i (some (grant s)))
  unfolding poll try_lock
  poll_free i s e = ground (arith, e)

  poll_held :
      (i : ℕ) (s : System A)
      → s.mutex.locked ≡ true
      → poll i s ≡ (
          if ((enlist i s).mutex.nodes i).woken
          then then_pending i (leave i (enlist i s))
          else some (false, park i (enlist i s)))
  unfolding poll try_lock
  poll_held i s e = ground (arith, e)

  enlist-same :
      (i : ℕ) (s : System A)
      → ((enlist i s).mutex.locked ≡ s.mutex.locked)
        × ((enlist i s).wakes ≡ s.wakes)
        × (((enlist i s).mutex.nodes i).woken ≡ (s.mutex.nodes i).woken)
  unfolding enlist
  enlist-same i s =
      let k = link-Keeps i s.mutex in
      (ground (arith, k.locked), ground arith, ground (arith, k.woken i))

  enlist-waker :
      (i : ℕ) (s : System A) → ((enlist i s).mutex.nodes i).waker ≡ (s.mutex.nodes i).waker
  unfolding enlist
  enlist-waker i s = ground (arith, (link-Keeps i s.mutex).waker i)

  enlist-linked : (i : ℕ) (s : System A) → (enlist i s).linked i ≡ true
  unfolding enlist
  enlist-linked i s = ground arith

  -- What a poll leaves, where the flag was `held` and the node of the future was marked `woken`.
  pub record Polled (i : ℕ) (held woken : Bool) (s s' : System A) (xs : List ℕ) : Type 0 where
    pub phase : s'.phase i ≡ (if held then idle else owner)
    pub flag : s'.mutex.locked ≡ true
    pub is_linked : s'.linked i ≡ (held && not woken)
    pub calls : s'.wakes ≡ (if held && woken then i ∷ s.wakes else s.wakes)
    pub waker :
        (s'.mutex.nodes i).waker ≡ (if held && not woken then some i else (s.mutex.nodes i).waker)
    pub mark : (s'.mutex.nodes i).woken ≡ (not held && woken)
    pub sound :
        Sound s' (
          if held && not woken then joined i s xs else erase i (if held then joined i s xs else xs))

  abbrev Outcome : ℕ → Bool → Bool → System A → List ℕ → Type 0
  Outcome i held woken s xs =
      (s' : System A) × (poll i s ≡ some (not held, s')) × Polled i held woken s s' xs

  poll-retries :
      (i : ℕ) (s : System A) (xs : List ℕ)
      → 0 < i
      → s.mutex.locked ≡ true
      → (s.mutex.nodes i).woken ≡ true
      → Sound s xs
      → Outcome i true true s xs
  unfolding retry then_pending
  poll-retries i s xs pos e w h =
      let t = enlist i s in
      let (flag, calls, mark) = enlist-same i s in
      let (s', run, out, flag', calls', keeps, h') =
        leave-Sound i t (joined i s xs) (enlist-Sound i s xs pos h) in
      let w' = mark ∙ w in
      let ran : poll i s ≡ then_pending i (leave i t) =
        poll_held i s e
        ∙ ap (λ b. if b then then_pending i (leave i t) else some (false, park i t)) w' in
      (
        retry i s',
        ran ∙ ap (then_pending i) run,
        record {
          phase = ground arith;
          flag = flag' ∙ flag ∙ e;
          is_linked = out;
          calls = ap (λ l. i ∷ l) (calls' ∙ calls);
          waker = ground (arith, keeps.waker i, enlist-waker i s);
          mark = ground arith;
          sound = retry-Sound i s' (erase i (joined i s xs)) h';
        },
      )

  poll-parks :
      (i : ℕ) (s : System A) (xs : List ℕ)
      → 0 < i
      → s.mutex.locked ≡ true
      → (s.mutex.nodes i).woken ≡ false
      → Sound s xs
      → Outcome i true false s xs
  unfolding park
  poll-parks i s xs pos e w h =
      let t = enlist i s in
      let (flag, calls, mark) = enlist-same i s in
      let w' = mark ∙ w in
      let ran =
        poll_held i s e
        ∙ ap (λ b. if b then then_pending i (leave i t) else some (false, park i t)) w' in
      (
        park i t,
        ran,
        record {
          phase = ground arith;
          flag = flag ∙ e;
          is_linked = enlist-linked i s;
          calls = calls;
          waker = ground arith;
          mark = ground (arith, w');
          sound = park-Sound i t (joined i s xs) (enlist-Sound i s xs pos h);
        },
      )

  poll-takes :
      (i : ℕ) (s : System A) (xs : List ℕ) (woken : Bool)
      → s.mutex.locked ≡ false
      → (s.mutex.nodes i).woken ≡ woken
      → Sound s xs
      → Outcome i false woken s xs
  unfolding then_ready is_alive
  poll-takes i s xs woken e w h = elim (Bool-cases (s.linked i)) [
    | inl l ↦
        let (s', run, out, flag, calls, keeps, h') =
          leave-Sound i (grant s) xs (grant-Sound s xs e h) in
        (
          with_phase i owner s',
          poll_free i s e
              ∙ ap
                  (λ b.
                    if b then then_ready i (leave i (grant s)) else then_ready i (some (grant s)))
                  l
              ∙ ap (then_ready i) run,
          record {
            phase = ground arith;
            flag = flag;
            is_linked = out;
            calls = calls;
            waker = keeps.waker i;
            mark = keeps.woken i ∙ w;
            sound = with_phase-Sound i owner s' (erase i xs) refl h';
          },
        )
    | inr l ↦ (
      with_phase i owner (grant s),
      poll_free i s e
          ∙ ap (λ b. if b then then_ready i (leave i (grant s)) else then_ready i (some (grant s)))
              l,
      record {
        phase = ground arith;
        flag = refl;
        is_linked = l;
        calls = refl;
        waker = refl;
        mark = w;
        sound =
            rw (erase-absent i xs (unlinked-NotIn i s xs l h))
              (with_phase-Sound i owner (grant s) xs refl (grant-Sound s xs e h));
      },
    )
  ]

  -- A poll with nothing between its steps returns: ready exactly when the flag was clear, and the flag
  -- is set afterwards. A future that gets its guard is out of the queue and not linked. One that finds
  -- the flag set and its node not marked woken is linked, with the waker of this poll in its node: if
  -- it was not linked before, it now stands at the end of the queue; if it was, the queue is as it was,
  -- and a node that an unlock had taken out as dead stays outside. One that finds the flag set and its
  -- node marked is out of the queue, the mark is gone, and its task is woken again.
  pub poll_lem :
      (i : ℕ) (s : System A) (xs : List ℕ)
      → 0 < i
      → Sound s xs
      → (s' : System A) × (poll i s ≡ some (not s.mutex.locked, s'))
        × Polled i s.mutex.locked (s.mutex.nodes i).woken s s' xs
  poll_lem i s xs pos h = go s.mutex.locked (s.mutex.nodes i).woken refl refl
    where
      go :
          (held woken : Bool)
          → s.mutex.locked ≡ held
          → (s.mutex.nodes i).woken ≡ woken
          → Outcome i held woken s xs
      go false woken e w = poll-takes i s xs woken e w h
      go true true e w = poll-retries i s xs pos e w h
      go true false e w = poll-parks i s xs pos e w h
