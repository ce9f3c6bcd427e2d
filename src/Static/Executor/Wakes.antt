-- ===== src/Static/Executor/Wakes.antt =====
-- `waker_wake` of async/src/no_alloc/waker.rs.
use uefi_async.Base.{
  ℕ, zero, suc, ◌+◌, ◌<◌, ◌≤◌, ◌≡◌, ap, ◌∙◌, sym, subst, Option, none, some, List, [], ◌∷◌, ◌++◌,
  arith, get_or, set, length, get_or-set_self, length-set, replicate, length-append, append_assoc,
  ltb, if◌then◌else◌,
}
use uefi_async.Static.Lifo as lifo
use uefi_async.Static.Lifo.Refine.{IsValid}
use uefi_async.Static.Task.{ready, into}
use uefi_async.Static.Executor.{
  System, queue_of, queue_size, core_size, with_queue, with_header, push_to, waker_wake,
}
use uefi_async.Static.Executor.Tasks.{tasks, push_room, header_same}

module _ {W : Type 0} where
  -- Wakes of one task, one after another.
  abbrev pub wakes : ℕ → ℕ → System W → Option (System W)
  wakes zero ptr s = some s
  wakes (suc n) ptr s = elim (waker_wake ptr s) [ none ↦ none | some t ↦ wakes n ptr t ]

  -- A task whose header names the queue `core`, with what is in that queue.
  pub record Homed (core ptr : ℕ) (ts : List ℕ) (s : System W) : Type 0 where
    pub inside : core < length s.queues
    pub valid : IsValid 8 (queue_of s core)
    pub held : tasks (queue_of s core) ≡ ts
    pub home : (s.headers ptr).control ≡ core

  wake_ready :
      (core ptr : ℕ) (s : System W)
      → core < core_size
      → (s.headers ptr).control ≡ core
      → waker_wake ptr s
        ≡ some
            (push_to core ptr (with_header s ptr (record (s.headers ptr) { state = into ready }))).1
  unfolding waker_wake
  wake_ready core ptr s h e =
      ap
        (λ c.
          if ltb c core_size
          then some
              (push_to c ptr (with_header s ptr (record (s.headers ptr) { state = into ready }))).1
          else none)
        e
      ∙ ground (arith, h)

  wake-Homed :
      (core ptr : ℕ) (ts : List ℕ) (s : System W)
      → core < core_size
      → Homed core ptr ts s
      → length ts < 256
      → (s' : System W) × (waker_wake ptr s ≡ some s')
        × Homed core ptr (ts ++ ptr ∷ []) s'
        × ((s'.headers ptr).state ≡ into ready)
  unfolding push_to
  wake-Homed core ptr ts s h home room =
      let woken = with_header s ptr (record (s.headers ptr) { state = into ready }) in
      let (q', done, v', more) =
        push_room (queue_of s core) ptr home.valid (omega (arith, ap length home.held)) in
      let s' = with_queue woken core q' in
      let same : get_or (set s.queues core q') core (lifo.new queue_size) ≡ q' =
        get_or-set_self s.queues core q' (lifo.new queue_size) home.inside in
      let header = header_same s ptr (record (s.headers ptr) { state = into ready }) in
      (
        s',
        wake_ready core ptr s h home.home ∙ ap (λ r. some (with_queue woken core r.1)) done,
        record {
          inside = omega (arith, home.inside, length-set s.queues core q');
          valid = subst (IsValid 8) (sym same) v';
          held = ap tasks same ∙ more ∙ ap (λ l. l ++ ptr ∷ []) home.held;
          home = ap (λ k. k.control) header ∙ home.home;
        },
        ap (λ k. k.state) header,
      )

  wakes_cons :
      (n ptr : ℕ) (s t : System W) → waker_wake ptr s ≡ some t → wakes (suc n) ptr s ≡ wakes n ptr t
  wakes_cons n ptr s t e = ap (λ o. elim o [ none ↦ none | some u ↦ wakes n ptr u ]) e

  -- However often a task is woken, and whatever state it is in, finished or in the queue already: it
  -- is made ready, and each wake puts it once more at the end of the queue of the core that its
  -- `control` names, as long as that is a core and the queue has room.
  pub wakes_duplicate :
      (core ptr n : ℕ) (ts : List ℕ) (s : System W)
      → core < core_size
      → Homed core ptr ts s
      → length ts + suc n ≤ 256
      → (s' : System W) × (wakes (suc n) ptr s ≡ some s')
        × Homed core ptr (ts ++ replicate (suc n) ptr) s'
        × ((s'.headers ptr).state ≡ into ready)
  wakes_duplicate core ptr zero ts s h home room =
      let (t, woke, homed, now) = wake-Homed core ptr ts s h home (omega arith) in
      (t, wakes_cons 0 ptr s t woke, homed, now)
  wakes_duplicate core ptr (suc n) ts s h home room =
      let (t, woke, homed, _) = wake-Homed core ptr ts s h home (omega arith) in
      let (u, woke', homed', now) =
        wakes_duplicate core ptr n (ts ++ ptr ∷ []) t h homed
          (omega (arith, length-append ts (ptr ∷ []))) in
      (
        u,
        wakes_cons (suc n) ptr s t woke ∙ woke',
        subst (λ l. Homed core ptr l u) (append_assoc ts (ptr ∷ []) (replicate (suc n) ptr)) homed',
        now,
      )
