-- ===== src/Dynamic/Executor.antt =====
-- async/src/dynamic/task.rs and the executor of async/src/dynamic/executor.rs. The worker queues of
-- all executors stand in one store, in which an executor's `worker` and `stealers` are indices.
pub mod Tasks
pub mod Drain
pub mod Spawn
use uefi_async.Base.{
  ℕ, zero, suc, ◌+◌, ◌-◌, List, [], ◌∷◌, ◌++◌, Bool, true, false, not, Option, none, some, ◌==◌,
  ltb, if◌then◌else◌, add_u64, checked_div, unwrap_or, assign, Poll, ready, pending, PollFn,
}
use uefi_async.Dynamic.Queues.{QueueOps}
use uefi_async.Dynamic.Registry.{Slot, lookup, live, update_first, register, retire}

pub record TaskNode (F : Type 0) : Type 0 where
  pub future : F
  pub interval : ℕ
  pub next_run_time : ℕ
  pub id : ℕ
  pub cancelled : Bool
  pub freq : ℕ

-- `TaskNode::new`
unfoldable pub new_node : {F : Type 0} → F → ℕ → TaskNode F
new_node f freq = record {
  future = f;
  interval = 0;
  next_run_time = 0;
  id = 0;
  cancelled = false;
  freq = freq;
}

-- `TaskNode::ticks`
unfoldable pub ticks : ℕ → ℕ → ℕ
ticks freq_hz freq_base = if freq_hz == 0 then 0 else unwrap_or (checked_div freq_base freq_hz) 0

-- `TaskNode::cancel` and `TaskNode::set_freq`: flags of the node that the executor never reads.
unfoldable pub cancel_node : {F : Type 0} → TaskNode F → TaskNode F
cancel_node t = record t { cancelled = true }

unfoldable pub set_freq_node : {F : Type 0} → TaskNode F → ℕ → TaskNode F
set_freq_node t freq_hz = record t { freq = freq_hz }

-- What all executors share, beside the world of the futures.
pub record Shared (W : Type 0) : Type 0 where
  pub next_id : ℕ
  pub registry : List Slot
  pub world : W

-- `NEXT_ID` starts at 1, `REGISTRY` empty.
abbrev pub initial : {W : Type 0} → W → Shared W
initial w = record { next_id = 1; registry = []; world = w }

pub record Executor : Type 0 where
  pub worker : ℕ
  pub stealers : List ℕ
  pub freq : ℕ

abbrev pub steal_batch : ℕ
steal_batch = 4

-- `Executor::new`; the queue at `worker` is made with it.
unfoldable pub new : ℕ → ℕ → Executor
new worker freq = record { worker = worker; stealers = []; freq = freq }

-- `Executor::add_stealer`
unfoldable pub add_stealer : Executor → ℕ → Executor
add_stealer e stealer = record e { stealers = e.stealers ++ stealer ∷ [] }

module _ {F W : Type 0} (poll : PollFn F (Unit {0}) (Shared W)) (ops : QueueOps (TaskNode F)) where
  open ops use {Worker, capacity, push, pop, steal}

  -- `Executor::spawn` on the executor's queue.
  unfoldable pub spawn : Executor → F → ℕ → Worker → Shared W → Option ℕ × Worker × Shared W
  spawn e future freq w s =
      let id = s.next_id in
      let registered = register id freq s.registry in
      let node = record (new_node future freq) { id = id; interval = ticks freq e.freq } in
      let (pushed, w') = push w node in
      if pushed
      then (some id, w', record s { next_id = add_u64 id 1; registry = registered })
      else (none, w', record s { next_id = add_u64 id 1; registry = retire id registered })

  -- The part of `poll_one` behind the checks.
  unfoldable pub poll_due : TaskNode F → ℕ → ℕ → Shared W → Bool × TaskNode F × Shared W
  poll_due task time interval s =
      let (r, f, s') = poll task.future s in
      elim r [
        | ready _ ↦ (
          true,
          record task { future = f; interval = interval },
          record s' { registry = retire task.id s'.registry },
        )
        | pending ↦ (
          false,
          record task { future = f; interval = interval; next_run_time = add_u64 time interval },
          s',
        )
      ]

  -- `Executor::poll_one`: whether the task is finished, the task, and the shared state.
  unfoldable pub poll_one : TaskNode F → ℕ → ℕ → Shared W → Bool × TaskNode F × Shared W
  poll_one task time freq_base s = elim (lookup task.id s.registry) [
    | none ↦ (true, task, s)
    | some slot ↦
        if slot.cancelled
        then (
          true,
          task,
          record s {
            registry = update_first (live task.id) (λ x. record x { alive = false }) s.registry;
          },
        )
        else if ltb time task.next_run_time
        then (false, task, s)
        else poll_due task time (ticks slot.freq_hz freq_base) s
  ]

  -- The loop of `run_step`, with `budget` rounds left. A `push` that fails drops the task.
  unfoldable pub drain : ℕ → ℕ → ℕ → Worker → Shared W → Worker × Shared W
  drain zero time freq_base w s = (w, s)
  drain (suc budget) time freq_base w s =
      let (popped, w') = pop w in
      elim popped [
        | none ↦ (w', s)
        | some task ↦
            let (finished, task', s') = poll_one task time freq_base s in
            elim finished [
              | true ↦ drain budget time freq_base w' s'
              | false ↦ drain budget time freq_base (push w' task').1 s'
            ]
      ]

  -- One batch from each sibling.
  unfoldable pub steal_all : ℕ → List ℕ → (ℕ → Worker) → ℕ → Worker
  steal_all worker [] cores = cores
  steal_all worker (s ∷ stealers) cores =
      let (theirs, ours) = steal (cores s) (cores worker) steal_batch in
      steal_all worker stealers (assign (assign cores s theirs) worker ours)

  -- `Executor::run_step`
  unfoldable pub run_step : Executor → ℕ → (ℕ → Worker) → Shared W → (ℕ → Worker) × Shared W
  run_step e time cores s =
      let cores' = steal_all e.worker e.stealers cores in
      let (w, s') = drain (capacity (cores' e.worker)) time e.freq (cores' e.worker) s in
      (assign cores' e.worker w, s')
