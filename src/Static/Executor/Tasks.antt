-- ===== src/Static/Executor/Tasks.antt =====
-- What a round of the executor of async/src/no_alloc/executor.rs does with a task.
use native.Mathlib.Decide.{dec_le}
use uefi_async.Base.{
  ◌⊎◌, inl, inr, ℕ, ◌^◌, ◌<◌, ◌≤◌, ◌≡◌, ◌≢◌, sym, ap, ◌∙◌, subst, Bool, true, false, some, List, [],
  ◌∷◌, ◌++◌, ok, arith, get_or, set, length, get_or-set_self, length-set,
}
use uefi_async.Static.Lifo as lifo
use uefi_async.Static.Lifo.Deque
use uefi_async.Static.Lifo.Refine.{IsValid, items, length-items, push_refines, pop_refines}
use uefi_async.Static.Task.{TaskHeader, ready, running, unreachable, into, compare_exchange}
use uefi_async.Static.Executor.{System, queue_of, queue_size, with_header, push_to, run_task}

pub small : 8 < 32
small = omega arith

-- The tasks in a queue of 256 places, oldest first.
abbrev pub tasks : lifo.Queue → List ℕ
tasks q = items 8 small q

pub tasks_bound : (q : lifo.Queue) → IsValid 8 q → length (tasks q) ≤ 256
tasks_bound q v = omega (arith, length-items 8 small q, v.fits)

pub pop_newest :
    (q : lifo.Queue) (ts : List ℕ) (ptr : ℕ)
    → IsValid 8 q
    → tasks q ≡ ts ++ ptr ∷ []
    → (q' : lifo.Queue) × (lifo.pop queue_size q ≡ (some ptr, q')) × IsValid 8 q' × (tasks q' ≡ ts)
pop_newest q ts ptr v e =
    let (r, q') = lifo.pop queue_size q in
    let both : (r, tasks q') ≡ (some ptr, ts) =
      (pop_refines 8 small q v).1 ∙ ap Deque.pop e ∙ Deque.pop-append ts ptr in
    (q', ap (λ a. (a.0, q')) both, (pop_refines 8 small q v).0, ap (λ a. a.1) both)

Deque_room :
    (ts : List ℕ) (ptr : ℕ)
    → length ts < 2 ^ 8
    → Deque.push (2 ^ 8) ts ptr ≡ (ok tt, ts ++ ptr ∷ [])
unfolding Deque.push
Deque_room ts ptr h = ground arith

pub push_room :
    (q : lifo.Queue) (ptr : ℕ)
    → IsValid 8 q
    → length (tasks q) < 256
    → (q' : lifo.Queue) × (lifo.push queue_size q ptr ≡ (ok tt, q'))
      × IsValid 8 q'
      × (tasks q' ≡ tasks q ++ ptr ∷ [])
push_room q ptr v h =
    let (r, q') = lifo.push queue_size q ptr in
    let both : (r, tasks q') ≡ (ok tt, tasks q ++ ptr ∷ []) =
      (push_refines 8 small q ptr v).1 ∙ Deque_room (tasks q) ptr (omega arith) in
    (q', ap (λ a. (a.0, q')) both, (push_refines 8 small q ptr v).0, ap (λ a. a.1) both)

eq_cases : (a b : ℕ) → (a ≡ b) ⊎ (a ≢ b)
eq_cases a b = elim (dec_le a b) [
  | yes le ↦ elim (dec_le b a) [ yes ge ↦ inl (omega arith) | no gt ↦ inr (λ e. gt (omega arith)) ]
  | no gt ↦ inr (λ e. gt (omega arith))
]

pub header_same :
    {W : Type 0} (u : System W) (ptr : ℕ) (h : TaskHeader) → (with_header u ptr h).headers ptr ≡ h
header_same u ptr h = ground arith

module _ {W : Type 0} (poll : ℕ → System W → Bool × System W) where
  -- An entry of a task that is not ready (a duplicate of one that ran) is dropped with no effect.
  pub run_task-stale :
      (core ptr : ℕ) (s : System W)
      → (s.headers ptr).state ≢ into ready
      → run_task poll core ptr s ≡ s
  unfolding run_task
  run_task-stale core ptr s h = ground arith

  -- A ready task whose poll is pending is made ready again, whatever the poll did to its state.
  run_task-pending :
      (core ptr : ℕ) (s u : System W)
      → (s.headers ptr).state ≡ into ready
      → poll ptr (with_header s ptr (record (s.headers ptr) { state = into running })) ≡ (false, u)
      → run_task poll core ptr s
        ≡ (push_to core ptr (with_header u ptr (record (u.headers ptr) { state = into ready }))).1
  unfolding run_task
  run_task-pending core ptr s u h e = ground arith

  -- A ready task whose poll is pending is ready again and the newest in the local queue, if this has
  -- room.
  pub run_task_requeues :
      (core ptr : ℕ) (s u : System W)
      → (s.headers ptr).state ≡ into ready
      → poll ptr (with_header s ptr (record (s.headers ptr) { state = into running })) ≡ (false, u)
      → core < length u.queues
      → IsValid 8 (queue_of u core)
      → length (tasks (queue_of u core)) < 256
      → let s' = run_task poll core ptr s in
        ((s'.headers ptr).state ≡ into ready)
        × (tasks (queue_of s' core) ≡ tasks (queue_of u core) ++ ptr ∷ [])
        × IsValid 8 (queue_of s' core)
        × (length s'.queues ≡ length u.queues)
  unfolding push_to
  run_task_requeues core ptr s u h e inside v room =
      let (q', done, v', more) = push_room (queue_of u core) ptr v room in
      let same : get_or (set u.queues core q') core (lifo.new queue_size) ≡ q' =
        get_or-set_self u.queues core q' (lifo.new queue_size) inside in
      rw (run_task-pending core ptr s u h e, done)
        (
          ap (λ h. h.state) (header_same u ptr (record (u.headers ptr) { state = into ready })),
          ap tasks same ∙ more,
          subst (IsValid 8) (sym same) v',
          length-set u.queues core q',
        )

  run_task-ready :
      (core ptr : ℕ) (s u : System W)
      → (s.headers ptr).state ≡ into ready
      → poll ptr (with_header s ptr (record (s.headers ptr) { state = into running })) ≡ (true, u)
      → run_task poll core ptr s
        ≡ with_header u ptr (compare_exchange (u.headers ptr) running unreachable).1
  unfolding run_task
  run_task-ready core ptr s u h e = ground arith

  state_after :
      (core ptr : ℕ) (s u : System W)
      → run_task poll core ptr s
        ≡ with_header u ptr (compare_exchange (u.headers ptr) running unreachable).1
      → ((run_task poll core ptr s).headers ptr).state
        ≡ (compare_exchange (u.headers ptr) running unreachable).1.state
  state_after core ptr s u e =
      ap (λ v. (v.headers ptr).state) e ∙ ap (λ h. h.state) (header_same u ptr _)

  -- A ready task whose poll is ready is not put back in the queue. If no wake came during the poll
  -- it is unreachable from then on, so that other entries of it are dropped; otherwise the state
  -- that the wake gave it stays.
  pub run_task_finishes :
      (core ptr : ℕ) (s u : System W)
      → (s.headers ptr).state ≡ into ready
      → poll ptr (with_header s ptr (record (s.headers ptr) { state = into running })) ≡ (true, u)
      → let s' = run_task poll core ptr s in
        (s'.queues ≡ u.queues)
        × ((((u.headers ptr).state ≡ into running)
              × ((s'.headers ptr).state ≡ into unreachable)
              × (run_task poll core ptr s' ≡ s'))
            ⊎ (((u.headers ptr).state ≢ into running)
                × ((s'.headers ptr).state ≡ (u.headers ptr).state)))
  run_task_finishes core ptr s u h e =
      let step = run_task-ready core ptr s u h e in
      let after = state_after core ptr s u step in
      (
        ap (λ v. v.queues) step,
        elim (eq_cases (u.headers ptr).state 3) [
          | inl same ↦
              let gone : ((run_task poll core ptr s).headers ptr).state ≡ 6 = after ∙ grind arith in
              inl (same, gone, run_task-stale core ptr (run_task poll core ptr s) (grind arith))
          | inr other ↦ inr (other, after ∙ grind arith)
        ],
      )
