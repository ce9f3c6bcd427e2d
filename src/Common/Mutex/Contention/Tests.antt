-- ===== src/Common/Mutex/Contention/Tests.antt =====
-- Runs of the mutex of async/src/common/mutex.rs with two futures, at the addresses 1 and 2.
use uefi_async.Base.{
  ℕ, ◌≡◌, refl, List, [], ◌∷◌, true, false, All, none, some, arith, ◌==◌, if◌then◌else◌, not,
  assign, ◌++◌,
}
use uefi_async.Common.Mutex.Nodups.{NotIn}
use uefi_async.Common.Mutex.{
  pop_waker, AsyncMutex, fresh_node, link, new, try_lock, lock, unlink, unlock,
}
use uefi_async.Common.Mutex.Queue.{IsQueue, Keeps}
use uefi_async.Common.Mutex.Unlink.{erase, unlink_refines}
use uefi_async.Common.Mutex.Wakes.{Woken, wake_next, unlock_refines}
use uefi_async.Common.Mutex.Contention.{
  Event, owner, clear_flag, wake_waiter, woke_with, System, begin_lock, turn, release, wake_one,
  start, step, run, poll, is_alive, begin_future, attempt, enabled, act, turn_at, can_turn, idle,
}
use uefi_async.Common.Mutex.Contention.Soundness.{Sound}
use uefi_async.Common.Mutex.Contention.Progress.{step-Sound, exclusion}
use uefi_async.Common.Mutex.Contention.Outcomes.{Polled, poll_lem}
use uefi_async.Common.Mutex.Contention.Stranding.{Stranded, lost_wake}
use uefi_async.Common.Mutex.Contention.Stays.{run-Stranded}

-- Three nodes linked one after another, of which the second has a waker.
abbrev three : AsyncMutex ℕ
three = link 3 (
    link 2 (
      link 1 (
        new 7 (λ i. record {
          waker = if i == 2 then some 20 else none;
          woken = false;
          next = 0;
          prev = 0;
        }))))

three-IsQueue : IsQueue three (1 ∷ 2 ∷ 3 ∷ [])
unfolding link new
three-IsQueue = record { chain = ground arith; ending = refl; distinct = ground arith }

unlink_refines_example :
    (s' : AsyncMutex ℕ) × (unlink 4 2 three ≡ some s')
    × IsQueue s' (erase 2 (1 ∷ 2 ∷ 3 ∷ []))
    × Keeps three s'
unlink_refines_example = unlink_refines 4 2 three (1 ∷ 2 ∷ 3 ∷ []) three-IsQueue (omega arith)

unlock_refines_example :
    (s' : AsyncMutex ℕ) × (unlock 4 three ≡ some (some 20, s'))
    × (s'.locked ≡ false)
    × IsQueue s' (3 ∷ [])
    × Woken (some (2, 20)) (record three { locked = false }) s'
unfolding link new wake_next
unlock_refines_example = unlock_refines 4 three (1 ∷ 2 ∷ 3 ∷ []) three-IsQueue (omega arith)

abbrev fresh_start : System ℕ
fresh_start = start 7 (λ i. fresh_node)

-- The first future has a guard, and the second found the flag set.
abbrev contended : System ℕ
contended = attempt 2 (begin_future 2 (attempt 1 (begin_future 1 fresh_start)))

run-contended :
    run (begin_lock 1 ∷ turn 1 ∷ begin_lock 2 ∷ turn 2 ∷ []) fresh_start ≡ some contended
unfolding run step enabled act turn_at start new begin_future attempt is_alive can_turn try_lock
    lock
run-contended = refl

contended-Sound : Sound contended []
unfolding start new begin_future attempt try_lock lock
contended-Sound = record {
  queue = record { chain = refl; ending = refl; distinct = tt };
  waiting = tt;
  short = omega arith;
  exclusive = refl;
}

step-Sound_example :
    (s' : System ℕ) × (step release contended ≡ some s') × ((ys : List ℕ) × Sound s' ys)
unfolding enabled start begin_future attempt try_lock lock new
step-Sound_example = step-Sound release contended [] refl contended-Sound

exclusion_example :
    (contended.guards ≡ (if contended.mutex.locked then 1 else 0))
    × ((xs : List ℕ) × IsQueue contended.mutex xs
        × All (λ i. is_alive (contended.phase i) ≡ true) xs)
exclusion_example =
    exclusion 7 (λ i. fresh_node) (begin_lock 1 ∷ turn 1 ∷ begin_lock 2 ∷ turn 2 ∷ []) contended
      run-contended

poll_lem_example :
    (s' : System ℕ) × (poll 2 contended ≡ some (not contended.mutex.locked, s'))
    × Polled 2 contended.mutex.locked (contended.mutex.nodes 2).woken contended s' []
poll_lem_example = poll_lem 2 contended [] (omega arith) contended-Sound

lost_wake_example :
    (s' : System ℕ) × (run (turn 2 ∷ release ∷ wake_one ∷ turn 2 ∷ turn 2 ∷ []) contended ≡ some s')
    × (s'.mutex.locked ≡ false)
    × Stranded 2 s' []
    × (s'.wakes ≡ contended.wakes)
unfolding start new begin_future attempt try_lock lock
lost_wake_example =
    lost_wake 2 contended (omega arith) contended-Sound refl refl refl refl (omega arith)

-- The second future linked, in no queue, and another guard held.
abbrev stranding : System ℕ
stranding = record {
  mutex = record {
    locked = true;
    head = 0;
    tail = 0;
    data_ = 7;
    nodes = λ i. record { waker = some i; woken = false; next = 0; prev = 0 };
  };
  links = 1;
  linked = λ i. i == 2;
  phase = λ i. idle;
  guards = 1;
  releasing = 0;
  wakes = [];
}

stranding-Sound : Sound stranding []
stranding-Sound = record {
  queue = record { chain = refl; ending = refl; distinct = tt };
  waiting = tt;
  short = omega arith;
  exclusive = refl;
}

stranding-Stranded : Stranded 2 stranding []
stranding-Stranded = record {
  waits = refl;
  linked = refl;
  unmarked = refl;
  queue = stranding-Sound.queue;
  out = tt;
}

-- The guard is dropped, and the third future takes the lock.
abbrev others : List Event
others = release ∷ wake_one ∷ turn 3 ∷ []

abbrev passed_by : System ℕ
passed_by = record stranding { phase = assign (λ i. idle) 3 owner }

others_run : run others stranding ≡ some passed_by
unfolding run step enabled act is_alive can_turn turn_at clear_flag wake_waiter woke_with pop_waker
    attempt try_lock
others_run = refl

run-Stranded_example :
    (ys : List ℕ) × Stranded 2 passed_by ys × (calls : List ℕ) × ([] ≡ calls ++ []) × NotIn 2 calls
run-Stranded_example =
    run-Stranded 2 others stranding passed_by [] stranding-Sound stranding-Stranded
      (λ y ne e. ne (cc e)) (tt, (tt, ((λ e. omega (arith, e)), tt))) others_run
