-- ===== src/Static/Task/Tests.antt =====
-- The task pool with slots in use: one that is running, one that is ready, and one that is finished.
use uefi_async.Base.{ℕ, ◌≡◌, some, none, List, [], ◌∷◌, ◌++◌, replicate, arith}
use uefi_async.Static.Task.{State, running, ready, unreachable, into, TaskSlot, init, new_slot}
use uefi_async.Static.Task.Pool.{taken, init_next}

abbrev in_use : State → ℕ → ℕ → TaskSlot ℕ
in_use state here future = record {
  header = record { control = 0; state = into state };
  address = here;
  future = some future;
}

abbrev used : List (TaskSlot ℕ)
used = in_use running 1 7 ∷ in_use ready 2 8 ∷ in_use unreachable 3 6 ∷ []

init_next_example :
    (init 0 (used ++ replicate 3 new_slot) 9 ≡ some (3, used ++ taken 4 9 ∷ replicate 2 new_slot))
    × (init 0 used 9 ≡ none)
init_next_example = init_next ℕ used 2 9 (omega arith, (omega arith, (omega arith, tt)))
