-- ===== src/Dynamic/Tests.antt =====
-- The theorems of the dynamic executor at concrete tasks, over queues that are lists.
use uefi_async.Base.{
  ℕ, zero, suc, ◌≡◌, ◌<◌, ◌+◌, refl, List, [], ◌∷◌, ◌++◌, Bool, true, false, Option, none, some,
  arith, countdown, length, length-append, if◌then◌else◌, ◌==◌,
}
use uefi_async.Dynamic.Queues.{QueueOps, QueueLaws}
use uefi_async.Dynamic.Registry.{lookup, cancel, is_alive, find}
use uefi_async.Dynamic.Registry.Lookup.{fresh_slot}
use uefi_async.Dynamic.Executor.{TaskNode, Executor, Shared, poll_one, drain, spawn}
use uefi_async.Dynamic.Executor.Tasks.{cancel-poll_one}
use uefi_async.Dynamic.Executor.Drain.{drain_not_due}
use uefi_async.Dynamic.Executor.Spawn.{IsValid, spawned, spawn_lem, spawn-IsValid}

abbrev Task : Type 0
Task = TaskNode ℕ

-- A queue as the list of its tasks and the number of places left.
record ListQueue : Type 0 where
  held : List Task
  spare : ℕ

abbrev push_with : List Task → Task → ℕ → Bool × ListQueue
push_with ts t zero = (false, record { held = ts; spare = 0 })
push_with ts t (suc n) = (true, record { held = ts ++ t ∷ []; spare = n })

abbrev pop_with : List Task → ℕ → Option Task × ListQueue
pop_with [] n = (none, record { held = []; spare = n })
pop_with (t ∷ []) n = (some t, record { held = []; spare = suc n })
pop_with (t ∷ u ∷ ts) n =
    let (last, q) = pop_with (u ∷ ts) n in (last, record { held = t ∷ q.held; spare = q.spare })

-- A thief takes from the front, one by one.
abbrev steal_with : List Task → ℕ → ListQueue → ℕ → ListQueue × ListQueue
steal_with ts n dest zero = (record { held = ts; spare = n }, dest)
steal_with [] n dest (suc k) = (record { held = []; spare = n }, dest)
steal_with (t ∷ ts) n dest (suc k) = elim (push_with dest.held t dest.spare).0 [
  | false ↦ (record { held = t ∷ ts; spare = n }, dest)
  | true ↦ steal_with ts (suc n) (push_with dest.held t dest.spare).1 k
]

abbrev list_ops : QueueOps Task
list_ops = record {
  Worker = ListQueue;
  capacity = λ q. length q.held + q.spare;
  push = λ q t. push_with q.held t q.spare;
  pop = λ q. pop_with q.held q.spare;
  steal = λ q r k. steal_with q.held q.spare r k;
}

push_with_room :
    (ts : List Task) (t : Task) (n : ℕ)
    → length ts < length ts + n
    → let (r, q) = push_with ts t n in
      (r ≡ true) × (q.held ≡ ts ++ t ∷ []) × (length q.held + q.spare ≡ length ts + n)
push_with_room ts t zero h = absurd (omega arith)
push_with_room ts t (suc n) h = (refl, refl, omega (arith, length-append ts (t ∷ [])))

push_with_full :
    (ts : List Task) (t : Task) (n : ℕ)
    → length ts ≡ length ts + n
    → let (r, q) = push_with ts t n in (r ≡ false) × (q.held ≡ ts)
push_with_full ts t zero h = (refl, refl)
push_with_full ts t (suc n) h = absurd (omega arith)

pop_with_last :
    (ts : List Task) (t : Task) (n : ℕ)
    → pop_with (ts ++ t ∷ []) n ≡ (some t, record { held = ts; spare = suc n })
pop_with_last [] t n = refl
pop_with_last (u ∷ []) t n = refl
pop_with_last (u ∷ v ∷ ts) t n = rw (pop_with_last (v ∷ ts) t n)

pop_list :
    (q : ListQueue) (ts : List Task) (t : Task)
    → q.held ≡ ts ++ t ∷ []
    → let (r, q') = pop_with q.held q.spare in
      (r ≡ some t) × (q'.held ≡ ts) × (length q'.held + q'.spare ≡ length q.held + q.spare)
pop_list q ts t e =
    rw (e, pop_with_last ts t q.spare) (refl, refl, omega (arith, length-append ts (t ∷ [])))

pop_list_none : (q : ListQueue) → q.held ≡ [] → pop_with q.held q.spare ≡ (none, q)
pop_list_none q e = ground arith

list_laws : QueueLaws list_ops
list_laws = record {
  tasks = λ q. q.held;
  bounded = λ q. omega arith;
  push_room = λ q t. push_with_room q.held t q.spare;
  push_full = λ q t. push_with_full q.held t q.spare;
  pop_last = pop_list;
  pop_none = pop_list_none;
}

abbrev task : ℕ → ℕ → ℕ → Task
task id n next = record {
  future = n;
  interval = 0;
  next_run_time = next;
  id = id;
  cancelled = false;
  freq = 0;
}

abbrev shared : Shared (Unit {0})
shared = record { next_id = 3; registry = fresh_slot 1 0 ∷ fresh_slot 2 10 ∷ []; world = tt }

shared-IsValid : IsValid shared
shared-IsValid = omega arith

abbrev queue : ListQueue
queue = record { held = task 1 0 0 ∷ task 2 5 100 ∷ []; spare = 2 }

abbrev exec : Executor
exec = record { worker = 0; stealers = []; freq = 1000 }

-- Task 1 is due and would finish at its first poll, but task 2, not due, is on top of it.
drain_runs : (drain countdown list_ops 4 7 1000 queue shared).0.held ≡ queue.held
unfolding drain poll_one find
drain_runs = refl

cancel-poll_one_example :
    let reg = (cancel 1 shared.registry).1 in
    let (finished, _, s') =
      poll_one countdown list_ops (task 1 4 0) 7 1000 (record shared { registry = reg }) in
    (finished ≡ true)
    × (s'.world ≡ tt)
    × (is_alive 1 s'.registry ≡ false)
    × ((cancel 1 s'.registry).0 ≡ false)
unfolding is_alive find
cancel-poll_one_example =
    cancel-poll_one countdown list_ops (task 1 4 0) 7 1000 shared shared-IsValid.distinct refl

drain_not_due_example :
    let (w', s') = drain countdown list_ops 4 7 1000 queue shared in
    (w'.held ≡ queue.held) × (s' ≡ shared)
unfolding find list_laws
drain_not_due_example =
    drain_not_due countdown list_laws 7 1000 4 queue shared (task 1 0 0 ∷ []) (task 2 5 100)
      (fresh_slot 2 10) refl refl refl (omega arith)

spawn_lem_example :
    let (r, w', s') = spawn countdown list_ops exec 7 10 queue shared in
    (r ≡ some 3)
    × (w'.held ≡ queue.held ++ spawned exec 7 10 shared ∷ [])
    × ((j : ℕ)
        → lookup j s'.registry
          ≡ (if j == 3 then some (fresh_slot 3 10) else lookup j shared.registry))
unfolding list_laws
spawn_lem_example =
    spawn_lem countdown list_laws exec 7 10 queue shared shared-IsValid (omega arith)

spawn-IsValid_example : IsValid (spawn countdown list_ops exec 7 10 queue shared).2
spawn-IsValid_example =
    spawn-IsValid countdown list_ops exec 7 10 queue shared shared-IsValid (omega arith)
