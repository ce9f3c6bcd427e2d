-- ===== src/Nano/Executor/Tests.antt =====
-- Runs of the nano executor, and its theorems at concrete tasks.
use Prim.Native.Nat.{◌<◌}
use uefi_async.Base.{
  ℕ, zero, suc, List, ◌++◌, ◌≡◌, refl, [], ◌∷◌, false, arith, countdown, length, pending,
}
use uefi_async.Nano.Executor.{TaskNode, new_node, new, add, pass, run_ticks}
use uefi_async.Nano.Executor.Order.{Made, Passed, logging, pass-Passed}
use uefi_async.Nano.Executor.Progress.{run_ticks_completes, work}

abbrev task : ℕ → TaskNode ℕ
task n = record { future = n; interval = 0; next_run_time = 0 }

abbrev late : TaskNode ℕ
late = record { future = 0; interval = 5; next_run_time = 9 }

add_rate :
    (add (new {F = ℕ} 1000) (new_node 7 60)).head
    ≡ record { future = 7; interval = 16; next_run_time = 0 } ∷ []
unfolding add new new_node
add_rate = refl

add_zero : (add (new {F = ℕ} 1000) (new_node 7 0)).head ≡ task 7 ∷ []
unfolding add new new_node
add_zero = refl

-- The second task is ready and leaves, the third is due and skipped.
abbrev several : List (TaskNode ℕ)
several = late ∷ task 0 ∷ task 0 ∷ task 2 ∷ []

pass-Passed_example :
    let out = pass (logging countdown) false 3 several (tt {0}, []) in
    (ps : List (Made ℕ)) × (out.1.1 ≡ [] ++ ps) × Passed 3 several out.0 ps
pass-Passed_example = pass-Passed countdown 3 several (tt, [])

three_left :
    let out = pass (logging countdown) false 3 several (tt {0}, []) in
    (length out.0 ≡ 3) × (length out.1.1 ≡ 2)
unfolding pass logging
three_left = (refl, refl)

countdown_advances : (f : ℕ) (w : Unit {0}) → (countdown f w).0 ≡ pending → (countdown f w).1 < f
countdown_advances zero w e = absurd (cc e)
countdown_advances (suc f) w e = omega arith

run_ticks_completes_example :
    (run_ticks countdown
      (record { head = task 0 ∷ task 0 ∷ task 1 ∷ []; freq = 1000 })
      (1 ∷ 1 ∷ 2 ∷ 5 ∷ [])
      (tt {0})).0.head
    ≡ []
unfolding work
run_ticks_completes_example =
    run_ticks_completes countdown (λ n. n) countdown_advances
      (record { head = task 0 ∷ task 0 ∷ task 1 ∷ []; freq = 1000 }) 0 (1 ∷ 1 ∷ 2 ∷ 5 ∷ []) (tt {0})
      (omega arith) (omega arith) (omega arith)
