-- ===== src/Static/Executor/Rounds.antt =====
-- Rounds of the loop of `Executor::run` (async/src/no_alloc/executor.rs).
use uefi_async.Base.{
  ℕ, zero, suc, ◌<◌, ◌≡◌, sym, ap, ◌∙◌, subst, Bool, false, List, [], ◌∷◌, ◌++◌, arith, get_or,
  replicate, refl, length, get_or-set_self, length-set, some, length-append,
}
use uefi_async.Static.Lifo as lifo
use uefi_async.Static.Lifo.Refine.{IsValid}
use uefi_async.Static.Task.{ready, running, into}
use uefi_async.Static.Executor.{
  System, queue_of, queue_size, with_queue, with_header, push_to, run_task, turn,
}
use uefi_async.Static.Executor.Tasks.{tasks, run_task_requeues, pop_newest, tasks_bound}

-- The local queue holds `ts` and then `ptr`, which is ready.
pub record Queued {W : Type 0} (core ptr : ℕ) (ts : List ℕ) (s : System W) : Type 0 where
  pub inside : core < length s.queues
  pub valid : IsValid 8 (queue_of s core)
  pub held : tasks (queue_of s core) ≡ ts ++ ptr ∷ []
  pub is_ready : (s.headers ptr).state ≡ into ready

-- A task whose poll is always pending and wakes nothing.
abbrev pub Endless : {W : Type 0} → (ℕ → System W → Bool × System W) → ℕ → Type 0
Endless {W} poll ptr =
    (s : System W)
    → ((poll ptr s).0 ≡ false)
      × ((poll ptr s).1.queues ≡ s.queues)
      × ((poll ptr s).1.headers ≡ s.headers)

module _ {W : Type 0} (poll : ℕ → System W → Bool × System W) where
  abbrev pub turns : ℕ → ℕ → System W → System W
  turns core zero s = s
  turns core (suc n) s = turns core n (turn poll core s)

  turn-pop :
      (core ptr : ℕ) (s : System W) (q : lifo.Queue)
      → lifo.pop queue_size (queue_of s core) ≡ (some ptr, q)
      → turn poll core s ≡ run_task poll core ptr (with_queue s core q)
  unfolding turn
  turn-pop core ptr s q e = ground arith

  run_task-world :
      (core ptr : ℕ) (s : System W)
      → (s.headers ptr).state ≡ into ready
      → (run_task poll core ptr s).world
        ≡ (poll ptr (with_header s ptr (record (s.headers ptr) { state = into running }))).1.world
  unfolding run_task push_to
  run_task-world core ptr s h = ground arith

  -- What a poll adds to the world, by `seen`, is there behind the round.
  turn-polls :
      {B : Type 0} (seen : W → B) (next : B → B) (core ptr : ℕ) (ts : List ℕ) (s : System W)
      → ((s : System W) → seen (poll ptr s).1.world ≡ next (seen s.world))
      → Queued core ptr ts s
      → seen (turn poll core s).world ≡ next (seen s.world)
  turn-polls seen next core ptr ts s adds h =
      let (q, popped, v, left) = pop_newest (queue_of s core) ts ptr h.valid h.held in
      let s1 = with_queue s core q in
      ap (λ u. seen u.world) (turn-pop core ptr s q popped)
      ∙ ap seen (run_task-world core ptr s1 h.is_ready)
      ∙ adds (with_header s1 ptr (record (s1.headers ptr) { state = into running }))

  turn-Queued :
      (core ptr : ℕ) (ts : List ℕ) (s : System W)
      → Endless poll ptr
      → Queued core ptr ts s
      → Queued core ptr ts (turn poll core s)
  turn-Queued core ptr ts s endless h =
      let (q, popped, v, left) = pop_newest (queue_of s core) ts ptr h.valid h.held in
      let s1 = with_queue s core q in
      let s2 = with_header s1 ptr (record (s1.headers ptr) { state = into running }) in
      let u = (poll ptr s2).1 in
      let same : queue_of u core ≡ q =
        ap (λ qs. get_or qs core (lifo.new queue_size)) (endless s2).1
        ∙ get_or-set_self s.queues core q (lifo.new queue_size) h.inside in
      let size : length u.queues ≡ length s.queues =
        ap length (endless s2).1 ∙ length-set s.queues core q in
      let room : length (tasks (queue_of u core)) < 256 = omega (
        arith,
        ap length (ap tasks same ∙ left),
        tasks_bound (queue_of s core) h.valid,
        ap length h.held,
        length-append ts (ptr ∷ []),
      ) in
      let after =
        run_task_requeues poll core ptr s1 u h.is_ready (ap (λ r. (r, u)) (endless s2).0)
          (omega (arith, h.inside)) (subst (IsValid 8) (sym same) v) room in
      rw (turn-pop core ptr s q popped) (record {
        inside = omega (arith, h.inside, after.3);
        valid = after.2;
        held = after.1 ∙ ap (λ t. t ++ ptr ∷ []) (ap tasks same ∙ left);
        is_ready = after.0;
      })

module _ {W : Type 0} (poll : ℕ → System W → Bool × System W) where
  -- The same polls, with a list of the tasks polled beside the world, the last one first.
  unfoldable pub logging : ℕ → System (W × List ℕ) → Bool × System (W × List ℕ)
  logging ptr s =
      let (r, u) =
        poll ptr (record { queues = s.queues; headers = s.headers; world = s.world.0 }) in
      (r, record { queues = u.queues; headers = u.headers; world = (u.world, ptr ∷ s.world.1) })

  logging-Endless : (ptr : ℕ) → Endless poll ptr → Endless logging ptr
  unfolding logging
  logging-Endless ptr endless s =
      endless (record { queues = s.queues; headers = s.headers; world = s.world.0 })

  logging_adds : (ptr : ℕ) (s : System (W × List ℕ)) → (logging ptr s).1.world.1 ≡ ptr ∷ s.world.1
  unfolding logging
  logging_adds ptr s = refl

  replicate_end : (n : ℕ) (a : ℕ) (l : List ℕ) → replicate n a ++ a ∷ l ≡ a ∷ replicate n a ++ l
  replicate_end zero a l = refl
  replicate_end (suc n) a l = ap (λ m. a ∷ m) (replicate_end n a l)

  -- While the task at the end of the local queue is ready, and its polls are pending and wake nothing,
  -- each round of the loop polls it and no other: after `n` rounds it has been polled `n` times and no
  -- other task at all, and it stands ready at the end of the queue again, with the tasks before it
  -- still in place.
  pub turns_starve :
      (core ptr : ℕ) (ts : List ℕ) (n : ℕ) (s : System (W × List ℕ))
      → Endless poll ptr
      → Queued core ptr ts s
      → let s' = turns logging core n s in
        Queued core ptr ts s' × (s'.world.1 ≡ replicate n ptr ++ s.world.1)
  turns_starve core ptr ts zero s endless h = (h, refl)
  turns_starve core ptr ts (suc n) s endless h =
      let (queued, polls) =
        turns_starve core ptr ts n (turn logging core s) endless
          (turn-Queued logging core ptr ts s (logging-Endless ptr endless) h) in
      (
        queued,
        polls
            ∙ ap (λ l. replicate n ptr ++ l)
                (turn-polls logging (λ w. w.1) (λ l. ptr ∷ l) core ptr ts s (logging_adds ptr) h)
            ∙ replicate_end n ptr s.world.1,
      )
