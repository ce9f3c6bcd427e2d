-- ===== src/Common/Mutex/Contention/Far.antt =====
-- What the steps of other futures leave of a future (async/src/common/mutex.rs).
use uefi_async.Base.{
  ℕ, suc, ◌<◌, ◌≡◌, ◌≢◌, refl, sym, ap, ◌∙◌, subst, List, [], ◌∷◌, ◌++◌, append_assoc, Bool, true,
  false, Option, some, arith, if◌then◌else◌, assign, Bool-cases, inl, inr,
}
use uefi_async.Common.Mutex.{lock, try_lock, drop_future}
use uefi_async.Common.Mutex.Nodups.{NotIn, NotIn-append}
use uefi_async.Common.Mutex.Queue.{link-Keeps}
use uefi_async.Common.Mutex.Unlink.{erase, unlink_refines}
use uefi_async.Common.Mutex.Remaining.{All-erase}
use uefi_async.Common.Mutex.Contention.{
  Phase, absent, idle, took, failed, enlisted, flagged, parking, owner, System, Event, begin_lock,
  turn, drop_lock, release, wake_one, with_phase, begin_future, attempt, left_with, leave, enlist,
  look, park, retry, then_phase, then_retry, turn_at, can_turn, is_alive, end_future, ended_with,
  clear_flag,
}
use uefi_async.Common.Mutex.Contention.Soundness.{Sound, with_phase-Sound}
use uefi_async.Common.Mutex.Contention.Steps.{
  attempt-Sound, leave-Sound, enlist-Sound, look-Sound, park-Sound, retry-Sound, joined,
}
use uefi_async.Common.Mutex.Contention.Progress.{some_inj, end_future-Sound}

-- An event that is no step of this future.
abbrev pub Other : ℕ → Event → Type 0
Other i (begin_lock j) = i ≢ j
Other i (turn j) = i ≢ j
Other i (drop_lock j) = i ≢ j
Other i release = Unit
Other i wake_one = Unit

module _ {A : Type 0} where
  -- Only the node of the future itself has its waker.
  abbrev pub Own : ℕ → System A → Type 0
  Own i s = (y : ℕ) → i ≢ y → (s.mutex.nodes y).waker ≢ some i

  -- What a step leaves of a future, and that it does not call its waker.
  pub record Far (i : ℕ) (s t : System A) : Type 0 where
    pub phase : t.phase i ≡ s.phase i
    pub linked : t.linked i ≡ s.linked i
    pub mark : (t.mutex.nodes i).woken ≡ (s.mutex.nodes i).woken
    pub own : Own i t
    pub calls : List ℕ
    pub wakes : t.wakes ≡ calls ++ s.wakes
    pub others : NotIn i calls

  -- A change of other futures only, without a call of a waker.
  pub quiet :
      (i : ℕ) (s t : System A)
      → Own i s
      → t.phase i ≡ s.phase i
      → t.linked i ≡ s.linked i
      → (t.mutex.nodes i).woken ≡ (s.mutex.nodes i).woken
      → ((y : ℕ) → i ≢ y → (t.mutex.nodes y).waker ≡ some i → (s.mutex.nodes y).waker ≡ some i)
      → t.wakes ≡ s.wakes
      → Far i s t
  quiet i s t h p l m w e = record {
    phase = p;
    linked = l;
    mark = m;
    own = λ y ne r. h y ne (w y ne r);
    calls = [];
    wakes = e;
    others = tt;
  }

  pub begin_future-Far : (i j : ℕ) (s : System A) → i ≢ j → Own i s → Far i s (begin_future j s)
  unfolding begin_future lock
  begin_future-Far i j s ne h =
      quiet i s (begin_future j s) h (ground (arith, ne)) (ground (arith, ne)) (ground (arith, ne))
        (λ y k r. ground (arith, r)) refl

  attempt-Far : (i j : ℕ) (s : System A) → i ≢ j → Own i s → Far i s (attempt j s)
  unfolding attempt try_lock
  attempt-Far i j s ne h =
      quiet i s (attempt j s) h (ground (arith, ne)) (ground (arith, ne)) (ground (arith, ne))
        (λ y k r. ground (arith, r)) (ground arith)

  enlist-Far : (i j : ℕ) (s : System A) → i ≢ j → Own i s → Far i s (enlist j s)
  unfolding enlist
  enlist-Far i j s ne h =
      let k = link-Keeps j s.mutex in
      quiet i s (enlist j s) h (ground (arith, ne)) (ground (arith, ne)) (ground (arith, k.woken i))
        (λ y d r. ground (arith, r, k.waker y)) (ground arith)

  look-Far : (i j : ℕ) (s : System A) → i ≢ j → Own i s → Far i s (look j s)
  unfolding look
  look-Far i j s ne h = quiet i s (look j s) h (ground (arith, ne)) refl refl (λ y d r. r) refl

  park-Far : (i j : ℕ) (s : System A) → i ≢ j → Own i s → Far i s (park j s)
  unfolding park
  park-Far i j s ne h =
      quiet i s (park j s) h (ground (arith, ne)) refl (ground (arith, ne))
        (λ y d r. ground (arith, r, ne)) refl

  pub clear_flag-Far : (i : ℕ) (s : System A) → Own i s → Far i s (clear_flag s)
  unfolding clear_flag
  clear_flag-Far i s h = quiet i s (clear_flag s) h refl refl refl (λ y d r. r) refl

  retry-Far : (i j : ℕ) (s : System A) → i ≢ j → Own i s → Far i s (retry j s)
  unfolding retry
  retry-Far i j s ne h = record {
    phase = ground (arith, ne);
    linked = refl;
    mark = ground (arith, ne);
    own = λ y d r. h y d (ground (arith, r));
    calls = j ∷ [];
    wakes = refl;
    others = ((λ e. ne (sym e)), tt);
  }

  -- The end of a step: the invariant, and the future out of the queue and far from the step.
  abbrev pub Passes : ℕ → System A → Option (System A) → Type 0
  Passes i s o =
      (t : System A) × (o ≡ some t) × ((ys : List ℕ) × Sound t ys × NotIn i ys) × Far i s t

  -- A change after a change.
  pub Far-then : (i : ℕ) (s t u : System A) → Far i s t → Far i t u → Far i s u
  Far-then i s t u f g = record {
    phase = g.phase ∙ f.phase;
    linked = g.linked ∙ f.linked;
    mark = g.mark ∙ f.mark;
    own = g.own;
    calls = g.calls ++ f.calls;
    wakes = g.wakes ∙ ap (λ l. g.calls ++ l) f.wakes ∙ sym (append_assoc g.calls f.calls s.wakes);
    others = NotIn-append i g.calls f.calls g.others f.others;
  }

  -- The unlinking of another future.
  leave-Passes :
      (i j : ℕ) (s : System A) (xs : List ℕ)
      → i ≢ j
      → Own i s
      → NotIn i xs
      → Sound s xs
      → Passes i s (leave j s)
  unfolding leave left_with
  leave-Passes i j s xs ne h out sound =
      let (m, ran, queue, keeps) =
        unlink_refines (suc s.links) j s.mutex xs sound.queue (omega (arith, sound.short)) in
      let (t, ran', _, _, _, _, after) = leave-Sound j s xs sound in
      let u = record s { mutex = m; linked = assign s.linked j false } in
      let same = some_inj t u (sym ran' ∙ ap (left_with j s) ran) in
      (
        u,
        ap (left_with j s) ran,
        (erase j xs, subst (λ v. Sound v (erase j xs)) same after, All-erase (λ y. y ≢ i) j xs out),
        quiet i s u h refl (ground (arith, ne)) (keeps.woken i) (λ y d r. sym (keeps.waker y) ∙ r)
            refl,
      )

  phase-Far : (i j : ℕ) (p : Phase) (s : System A) → i ≢ j → Own i s → Far i s (with_phase j p s)
  phase-Far i j p s ne h =
      quiet i s (with_phase j p s) h (ground (arith, ne)) refl refl (λ y d r. r) refl

  pub turn_at-Passes :
      (p : Phase) (i j : ℕ) (s : System A) (xs : List ℕ)
      → 0 < j
      → can_turn p ≡ true
      → i ≢ j
      → Own i s
      → NotIn i xs
      → Sound s xs
      → Passes i s (turn_at p j s)
  unfolding turn_at can_turn then_phase then_retry is_alive
  turn_at-Passes absent i j s xs pos e ne h out sound = absurd (ground (arith, e))
  turn_at-Passes idle i j s xs pos e ne h out sound =
      (attempt j s, refl, (xs, attempt-Sound j s xs sound, out), attempt-Far i j s ne h)
  turn_at-Passes took i j s xs pos e ne h out sound =
      let (t, ran, (ys, after, away), far) = leave-Passes i j s xs ne h out sound in
      (
        with_phase j owner t,
        ap (then_phase j owner) ran,
        (ys, with_phase-Sound j owner t ys refl after, away),
        Far-then i s t (with_phase j owner t) far (phase-Far i j owner t ne far.own),
      )
  turn_at-Passes failed i j s xs pos e ne h out sound = (
    enlist j s,
    refl,
    (joined j s xs, enlist-Sound j s xs pos sound, joined-NotIn (s.linked j)),
    enlist-Far i j s ne h,
  )
    where
      joined-NotIn : (b : Bool) → NotIn i (if b then xs else xs ++ j ∷ [])
      joined-NotIn true = out
      joined-NotIn false = NotIn-append i xs (j ∷ []) out ((λ k. ne (sym k)), tt)
  turn_at-Passes enlisted i j s xs pos e ne h out sound =
      (look j s, refl, (xs, look-Sound j s xs sound, out), look-Far i j s ne h)
  turn_at-Passes flagged i j s xs pos e ne h out sound =
      let (t, ran, (ys, after, away), far) = leave-Passes i j s xs ne h out sound in
      (
        retry j t,
        ap (then_retry j) ran,
        (ys, retry-Sound j t ys after, away),
        Far-then i s t (retry j t) far (retry-Far i j t ne far.own),
      )
  turn_at-Passes parking i j s xs pos e ne h out sound =
      (park j s, refl, (xs, park-Sound j s xs sound, out), park-Far i j s ne h)
  turn_at-Passes owner i j s xs pos e ne h out sound = absurd (ground (arith, e))

  pub end_future-Passes :
      (i j : ℕ) (s : System A) (xs : List ℕ)
      → i ≢ j
      → Own i s
      → NotIn i xs
      → Sound s xs
      → Passes i s (end_future j s)
  unfolding end_future ended_with drop_future
  end_future-Passes i j s xs ne h out sound =
      let (t, ran, after) = end_future-Sound j s xs sound in
      elim (Bool-cases (s.linked j)) [
        | inl e ↦
            let (m, ran', queue, keeps) =
              unlink_refines (suc s.links) j s.mutex xs sound.queue (omega (arith, sound.short)) in
            let u = with_phase j absent (record s { mutex = m }) in
            let ended : end_future j s ≡ some u = rw e (ap (ended_with j s) ran') in
            (
              u,
              ended,
              (
                erase j xs,
                subst (λ v. Sound v (erase j xs)) (some_inj t u (sym ran ∙ ended)) (rw e at after),
                All-erase (λ y. y ≢ i) j xs out,
              ),
              quiet i s u h (ground (arith, ne)) refl (keeps.woken i)
                  (λ y d r. sym (keeps.waker y) ∙ r) refl,
            )
        | inr e ↦
            let u = with_phase j absent s in
            let ended : end_future j s ≡ some u = rw e in
            (
              u,
              ended,
              (xs, subst (λ v. Sound v xs) (some_inj t u (sym ran ∙ ended)) (rw e at after), out),
              phase-Far i j absent s ne h,
            )
      ]
