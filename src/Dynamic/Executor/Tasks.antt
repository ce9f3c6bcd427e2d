-- ===== src/Dynamic/Executor/Tasks.antt =====
-- One task of async/src/dynamic/executor.rs: what `poll_one` does with it.
use uefi_async.Base.{
  ℕ, ◌≤◌, ◌<◌, ◌≡◌, List, true, false, none, some, if◌then◌else◌, arith, PollFn, is_ready, add_u64,
}
use uefi_async.Dynamic.Queues.{QueueOps}
use uefi_async.Dynamic.Registry.{Slot, lookup, live, update_first, cancel, is_alive, retire}
use uefi_async.Dynamic.Registry.Lookup.{Distinct, lookup-reap, cancel-Distinct, cancel_lem}
use uefi_async.Dynamic.Executor.{TaskNode, Shared, poll_due, poll_one, ticks}

module _ {F W : Type 0} (poll : PollFn F (Unit {0}) (Shared W)) (ops : QueueOps (TaskNode F)) where
  -- A task that was cancelled before its turn is given up without a poll: the world stays as it is,
  -- and its id is no longer live, so a second `cancel` fails. This is so whether it is due or not.
  pub cancel-poll_one :
      (task : TaskNode F) (time freq_base : ℕ) (s : Shared W)
      → Distinct s.registry
      → is_alive task.id s.registry ≡ true
      → let reg = (cancel task.id s.registry).1 in
        let (finished, _, s') =
          poll_one poll ops task time freq_base (record s { registry = reg }) in
        (finished ≡ true)
        × (s'.world ≡ s.world)
        × (is_alive task.id s'.registry ≡ false)
        × ((cancel task.id s'.registry).0 ≡ false)
  unfolding poll_one is_alive
  cancel-poll_one task time freq_base s d alive = ground (
    arith,
    cancel_lem task.id task.id s.registry,
    lookup-reap task.id reg (cancel-Distinct task.id s.registry d),
    cancel_lem task.id task.id (update_first (live task.id) (λ x. record x { alive = false }) reg),
  )
    where
      reg : List Slot
      reg = (cancel task.id s.registry).1

  -- A task that is not due, or whose id is not live, is not polled: nothing changes, and it is kept
  -- in the first case and given up in the second.
  pub poll_one_idle :
      (task : TaskNode F) (time freq_base : ℕ) (s : Shared W) (slot : Slot)
      → (lookup task.id s.registry ≡ none
          → poll_one poll ops task time freq_base s ≡ (true, task, s))
        × (lookup task.id s.registry ≡ some slot
            → slot.cancelled ≡ false
            → time < task.next_run_time
            → poll_one poll ops task time freq_base s ≡ (false, task, s))
  unfolding poll_one
  poll_one_idle task time freq_base s slot = (λ e. ground arith, λ e c lt. ground arith)

  -- A due task runs at the rate that the registry has for it now, not the one at its spawn.
  -- Pending, it is due again one interval later; ready, its id is retired.
  pub poll_one_due :
      (task : TaskNode F) (time freq_base : ℕ) (s : Shared W) (slot : Slot)
      → lookup task.id s.registry ≡ some slot
      → slot.cancelled ≡ false
      → task.next_run_time ≤ time
      → let (finished, task', s') = poll_one poll ops task time freq_base s in
        let (r, f, polled) = poll task.future s in
        (finished ≡ is_ready r)
        × (task'.future ≡ f)
        × (task'.interval ≡ ticks slot.freq_hz freq_base)
        × (task'.id ≡ task.id)
        × (if is_ready r
            then s' ≡ record polled { registry = retire task.id polled.registry }
            else (s' ≡ polled) × (task'.next_run_time ≡ add_u64 time task'.interval))
  unfolding poll_one poll_due
  poll_one_due task time freq_base s slot e c due = ground arith
