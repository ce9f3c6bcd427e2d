-- ===== src/Common/Mutex/Contention/Steps.antt =====
-- The invariant over the single steps of futures in async/src/common/mutex.rs.
use uefi_async.Base.{
  ℕ, suc, ◌<◌, ◌≡◌, ◌≢◌, refl, sym, ap, ◌∙◌, subst, List, [], ◌∷◌, ◌++◌, true, false, some, arith,
  if◌then◌else◌, assign, Bool-cases, inl, inr, length-append, All-append,
}
use uefi_async.Common.Mutex.{fresh_node, lock, link, try_lock}
use uefi_async.Common.Mutex.Segments.{Seg-frame}
use uefi_async.Common.Mutex.Queue.{Keeps, link-IsQueue, link-Keeps}
use uefi_async.Common.Mutex.Unlink.{erase, unlink_refines}
use uefi_async.Common.Mutex.Wakes.{}
use uefi_async.Common.Mutex.Remaining.{All-map, All-zip, All-erase, erase-short, erase-NotIn}
use uefi_async.Common.Mutex.Contention.{
  idle, took, failed, enlisted, owner, is_alive, System, with_phase, begin_future, attempt,
  left_with, leave, enlist, look, park, retry,
}
use uefi_async.Common.Mutex.Contention.Soundness.{
  Waits, Sound, unlinked-NotIn, absent-NotIn, with_phase-Sound, with_waiter-Sound,
}

module _ {A : Type 0} where
  pub begin_future-Sound :
      (i : ℕ) (s : System A) (xs : List ℕ)
      → is_alive (s.phase i) ≡ false
      → Sound s xs
      → Sound (begin_future i s) xs
  unfolding begin_future lock is_alive
  begin_future-Sound i s xs e h =
      let out = absent-NotIn i s xs e h in
      record {
        queue = record {
          chain = Seg-frame s.mutex.nodes i fresh_node 0 s.mutex.head xs 0 out h.queue.chain;
          ending = h.queue.ending;
          distinct = h.queue.distinct;
        };
        waiting =
            All-zip (Waits s) (λ y. y ≢ i) (Waits (begin_future i s)) xs
              (λ y w n. (ground (arith, w.0, n), ground (arith, w.1, n))) h.waiting out;
        short = h.short;
        exclusive = h.exclusive;
      }

  -- The flag taken.
  abbrev pub grant : System A → System A
  grant s = record s { mutex = record s.mutex { locked = true }; guards = suc s.guards }

  pub attempt_held :
      (i : ℕ) (s : System A) → s.mutex.locked ≡ true → attempt i s ≡ with_phase i failed s
  unfolding attempt try_lock
  attempt_held i s e = ground (arith, e)

  pub attempt_free :
      (i : ℕ) (s : System A)
      → s.mutex.locked ≡ false
      → attempt i s ≡ with_phase i (if s.linked i then took else owner) (grant s)
  unfolding attempt try_lock
  attempt_free i s e = ground (arith, e)

  pub grant-Sound :
      (s : System A) (xs : List ℕ) → s.mutex.locked ≡ false → Sound s xs → Sound (grant s) xs
  grant-Sound s xs e h = record {
    queue = record { chain = h.queue.chain; ending = h.queue.ending; distinct = h.queue.distinct };
    waiting = h.waiting;
    short = h.short;
    exclusive = ground (arith, h.exclusive, e);
  }

  pub attempt-Sound : (i : ℕ) (s : System A) (xs : List ℕ) → Sound s xs → Sound (attempt i s) xs
  unfolding is_alive
  attempt-Sound i s xs h = elim (Bool-cases s.mutex.locked) [
    | inl e ↦ rw (attempt_held i s e) (with_phase-Sound i failed s xs refl h)
    | inr e ↦ rw (attempt_free i s e) (
        with_phase-Sound i (if s.linked i then took else owner) (grant s) xs (ground arith)
          (grant-Sound s xs e h))
  ]

  -- The future out of the queue, with what a step does then.
  abbrev pub Left : ℕ → System A → List ℕ → Type 0
  Left i s xs =
      (s' : System A) × (leave i s ≡ some s')
      × (s'.linked i ≡ false)
      × (s'.mutex.locked ≡ s.mutex.locked)
      × (s'.wakes ≡ s.wakes)
      × Keeps s.mutex s'.mutex
      × Sound s' (erase i xs)

  pub leave-Sound : (i : ℕ) (s : System A) (xs : List ℕ) → Sound s xs → Left i s xs
  unfolding leave left_with
  leave-Sound i s xs h =
      let (m, run, queue, keeps) =
        unlink_refines (suc s.links) i s.mutex xs h.queue (omega (arith, h.short)) in
      let s' = record s { mutex = m; linked = assign s.linked i false } in
      (
        s',
        ap (left_with i s) run,
        ground arith,
        keeps.locked,
        refl,
        keeps,
        record {
          queue = queue;
          waiting =
              All-zip (Waits s) (λ y. y ≢ i) (Waits s') (erase i xs)
                (λ y w n. (ground (arith, w.0, n), w.1)) (All-erase (Waits s) i xs h.waiting)
                (erase-NotIn i xs h.queue.distinct);
          short = omega (arith, h.short, erase-short i xs);
          exclusive = h.exclusive ∙ ap (λ b. if b then 1 else 0) (sym keeps.locked);
        },
      )

  pub enlist_first :
      (i : ℕ) (s : System A)
      → s.linked i ≡ false
      → enlist i s
        ≡ with_phase i enlisted (record s {
          mutex = link i s.mutex;
          links = suc s.links;
          linked = assign s.linked i true;
        })
  unfolding enlist
  enlist_first i s e = ground (arith, e)

  pub enlist_again :
      (i : ℕ) (s : System A) → s.linked i ≡ true → enlist i s ≡ with_phase i enlisted s
  unfolding enlist
  enlist_again i s e = ground (arith, e)

  -- The queue after the slow path of `poll` has linked a future.
  abbrev pub joined : ℕ → System A → List ℕ → List ℕ
  joined i s xs = if s.linked i then xs else xs ++ i ∷ []

  pub enlist-Sound-first :
      (i : ℕ) (s : System A) (xs : List ℕ)
      → 0 < i
      → s.linked i ≡ false
      → Sound s xs
      → Sound (enlist i s) (xs ++ i ∷ [])
  unfolding is_alive
  enlist-Sound-first i s xs pos e h =
      let out = unlinked-NotIn i s xs e h in
      let s' = with_phase i enlisted (record s {
        mutex = link i s.mutex;
        links = suc s.links;
        linked = assign s.linked i true;
      }) in
      rw (enlist_first i s e) (record {
        queue = link-IsQueue i xs s.mutex pos out h.queue;
        waiting =
            All-append (Waits s') xs (i ∷ [])
              (All-map (Waits s) (Waits s') xs (λ y w. (ground (arith, w.0), ground (arith, w.1)))
                h.waiting)
              ((ground arith, ground arith), tt);
        short = omega (arith, h.short, length-append xs (i ∷ []));
        exclusive = h.exclusive ∙ ap (λ b. if b then 1 else 0) (sym (link-Keeps i s.mutex).locked);
      })

  pub enlist-Sound :
      (i : ℕ) (s : System A) (xs : List ℕ) → 0 < i → Sound s xs → Sound (enlist i s) (joined i s xs)
  unfolding is_alive
  enlist-Sound i s xs pos h = elim (Bool-cases (s.linked i)) [
    | inl e ↦ rw (enlist_again i s e) (rw e (with_phase-Sound i enlisted s xs refl h))
    | inr e ↦
        let at_end = enlist-Sound-first i s xs pos e h in
        subst (λ b. Sound (enlist i s) (if b then xs else xs ++ i ∷ [])) (sym e) at_end
  ]

  pub look-Sound : (i : ℕ) (s : System A) (xs : List ℕ) → Sound s xs → Sound (look i s) xs
  unfolding look is_alive
  look-Sound i s xs h = with_phase-Sound i _ s xs (ground arith) h

  pub park-Sound : (i : ℕ) (s : System A) (xs : List ℕ) → Sound s xs → Sound (park i s) xs
  unfolding park is_alive
  park-Sound i s xs h =
      with_phase-Sound i idle _ xs refl
        (with_waiter-Sound i (record (s.mutex.nodes i) { waker = some i }) s xs refl refl h)

  pub retry-Sound : (i : ℕ) (s : System A) (xs : List ℕ) → Sound s xs → Sound (retry i s) xs
  unfolding retry is_alive
  retry-Sound i s xs h =
      let w = with_waiter-Sound i (record (s.mutex.nodes i) { woken = false }) s xs refl refl h in
      let k = with_phase-Sound i idle _ xs refl w in
      record { queue = k.queue; waiting = k.waiting; short = k.short; exclusive = k.exclusive }
