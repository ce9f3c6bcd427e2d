-- ===== src/Dynamic/Queues.antt =====
-- The queues of the crate `st3` (`st3::lifo`), which async/src/dynamic/executor.rs only calls: the
-- operations that it uses are parameters, and what their documentation says of them are laws.
use uefi_async.Base.{
  ℕ, ◌≤◌, ◌<◌, ◌≡◌, List, [], ◌∷◌, ◌++◌, Bool, true, false, Option, none, some, length,
}

pub record QueueOps (T : Type 0) : Type 1 where
  pub Worker : Type 0
  pub capacity : Worker → ℕ
  -- `false` for `Err`: the queue is full, and the task comes back.
  pub push : Worker → T → Bool × Worker
  pub pop : Worker → Option T × Worker
  -- `Stealer::steal` from the first queue to the second, of at most so many tasks.
  pub steal : Worker → Worker → ℕ → Worker × Worker

-- A worker is a bounded list of tasks, oldest first. Its owner pushes and pops at the end (LIFO).
pub record QueueLaws {T : Type 0} (ops : QueueOps T) : Type 0 where
  pub tasks : ops.Worker → List T
  pub bounded : (w : ops.Worker) → length (tasks w) ≤ ops.capacity w
  pub push_room :
      (w : ops.Worker) (t : T)
      → length (tasks w) < ops.capacity w
      → ((ops.push w t).0 ≡ true)
        × (tasks (ops.push w t).1 ≡ tasks w ++ t ∷ [])
        × (ops.capacity (ops.push w t).1 ≡ ops.capacity w)
  pub push_full :
      (w : ops.Worker) (t : T)
      → length (tasks w) ≡ ops.capacity w
      → ((ops.push w t).0 ≡ false) × (tasks (ops.push w t).1 ≡ tasks w)
  pub pop_last :
      (w : ops.Worker) (ts : List T) (t : T)
      → tasks w ≡ ts ++ t ∷ []
      → ((ops.pop w).0 ≡ some t)
        × (tasks (ops.pop w).1 ≡ ts)
        × (ops.capacity (ops.pop w).1 ≡ ops.capacity w)
  pub pop_none : (w : ops.Worker) → tasks w ≡ [] → ops.pop w ≡ (none, w)
