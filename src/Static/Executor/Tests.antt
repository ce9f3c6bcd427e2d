-- ===== src/Static/Executor/Tests.antt =====
-- The rounds of the executor with two tasks, of which the newer is never finished.
use uefi_async.Base.{
  ℕ, suc, ◌≡◌, ◌≢◌, refl, arith, Bool, true, false, List, [], ◌∷◌, ◌++◌, replicate, some, ◌⊎◌,
}
use uefi_async.Static.Lifo as lifo
use uefi_async.Static.Lifo.Refine.{IsValid}
use uefi_async.Static.Task.{ready, running, unreachable, into}
use uefi_async.Static.Executor.{System, with_header, run_task}
use uefi_async.Static.Executor.Tasks.{run_task_finishes}
use uefi_async.Static.Executor.Wakes.{Homed, wakes, wakes_duplicate}
use uefi_async.Static.Executor.Rounds.{Queued, turns, logging, turns_starve}

abbrev two_tasks : lifo.Queue
two_tasks = record {
  push_count = 2;
  pop_count_and_head = 0;
  head = 0;
  buffer = 5 ∷ 6 ∷ replicate 254 0;
}

abbrev in_state : ℕ → System ℕ
in_state state = record {
  queues = two_tasks ∷ [];
  headers = λ p. record { control = 0; state = state };
  world = 0;
}

-- Counts the polls.
abbrev endless : ℕ → System ℕ → Bool × System ℕ
endless ptr s = (false, record s { world = suc s.world })

abbrev finishing : ℕ → System ℕ → Bool × System ℕ
finishing ptr s = (true, record s { world = suc s.world })

two_tasks-IsValid : IsValid 8 two_tasks
two_tasks-IsValid = record {
  room = refl;
  pushes = omega arith;
  packed = omega arith;
  settled = refl;
  fits = omega arith;
}

-- The systems in the poll of task 7 and after it.
abbrev polling : System ℕ
polling = with_header (in_state 2) 7 (record { control = 0; state = 3 })

abbrev polled : System ℕ
polled = record polling { world = 1 }

run_task_finishes_example :
    let s' = run_task finishing 0 7 (in_state 2) in
    (s'.queues ≡ polled.queues)
    × ((((polled.headers 7).state ≡ into running)
          × ((s'.headers 7).state ≡ into unreachable)
          × (run_task finishing 0 7 s' ≡ s'))
        ⊎ (((polled.headers 7).state ≢ into running)
            × ((s'.headers 7).state ≡ (polled.headers 7).state)))
run_task_finishes_example = run_task_finishes finishing 0 7 (in_state 2) polled refl refl

abbrev unpolled : System (ℕ × List ℕ)
unpolled = record {
  queues = two_tasks ∷ [];
  headers = λ p. record { control = 0; state = 2 };
  world = (0, []);
}

turns_starve_example :
    let s' = turns (logging endless) 0 100 unpolled in
    Queued 0 6 (5 ∷ []) s' × (s'.world.1 ≡ replicate 100 6 ++ [])
turns_starve_example =
    turns_starve endless 0 6 (5 ∷ []) 100 unpolled (λ s. (refl, refl, refl))
      (record { inside = omega arith; valid = two_tasks-IsValid; held = refl; is_ready = refl })

wakes_duplicate_example :
    (s' : System ℕ) × (wakes 3 9 (in_state 6) ≡ some s')
    × Homed 0 9 (5 ∷ 6 ∷ replicate 3 9) s'
    × ((s'.headers 9).state ≡ into ready)
wakes_duplicate_example =
    wakes_duplicate 0 9 2 (5 ∷ 6 ∷ []) (in_state 6) (omega arith)
      (record { inside = omega arith; valid = two_tasks-IsValid; held = refl; home = refl })
      (omega arith)
