-- ===== src/Dynamic/Registry.antt =====
-- The global registry of async/src/dynamic/executor.rs: `Slot`, `NEXT_ID`, `REGISTRY`, `with_slot`,
-- and the operations on it. The lock is held for the whole of each operation, so each is one step.
pub mod Lookup
use uefi_async.Base.{
  ℕ, ◌+◌, ◌%◌, ◌^◌, List, [], ◌∷◌, ◌++◌, Bool, true, false, not, ◌&&◌, Option, none, some, ◌==◌,
  if◌then◌else◌, add_u64,
}

pub record Slot : Type 0 where
  pub id : ℕ  -- TaskId = u64
  pub alive : Bool
  pub cancelled : Bool
  pub freq_hz : ℕ

-- `iter_mut().find(…)`, and the use of the slot that it finds: the first slot that passes the test.
unfoldable pub update_first : (Slot → Bool) → (Slot → Slot) → List Slot → List Slot
update_first test f [] = []
update_first test f (s ∷ reg) = if test s then f s ∷ reg else s ∷ update_first test f reg

unfoldable pub find : (Slot → Bool) → List Slot → Option Slot
find test [] = none
find test (s ∷ reg) = if test s then some s else find test reg

-- The test of `with_slot` and of `poll_one`.
abbrev pub live : ℕ → Slot → Bool
live id s = s.alive && (s.id == id)

abbrev pub dead : Slot → Bool
dead s = not s.alive

-- What a lookup of a task finds.
abbrev pub lookup : ℕ → List Slot → Option Slot
lookup id reg = find (live id) reg

-- The registration in `spawn`: a dead slot is taken again where there is one.
unfoldable pub register : ℕ → ℕ → List Slot → List Slot
register id freq [] = record { id = id; alive = true; cancelled = false; freq_hz = freq } ∷ []
register id freq (s ∷ reg) =
    if dead s
    then record { id = id; alive = true; cancelled = false; freq_hz = freq } ∷ reg
    else s ∷ register id freq reg

-- `slot.alive = false` in the first slot with that id, dead or alive.
unfoldable pub retire : ℕ → List Slot → List Slot
retire id reg = update_first (λ s. s.id == id) (λ s. record s { alive = false }) reg

-- `Executor::cancel`
unfoldable pub cancel : ℕ → List Slot → Bool × List Slot
cancel id reg = elim (lookup id reg) [
  | none ↦ (false, reg)
  | some s ↦ (true, update_first (live id) (λ s. record s { cancelled = true }) reg)
]

-- `Executor::set_freq`
unfoldable pub set_freq : ℕ → ℕ → List Slot → Bool × List Slot
set_freq id freq_hz reg = elim (lookup id reg) [
  | none ↦ (false, reg)
  | some s ↦ (true, update_first (live id) (λ s. record s { freq_hz = freq_hz }) reg)
]

-- `Executor::is_alive`
unfoldable pub is_alive : ℕ → List Slot → Bool
is_alive id reg = elim (lookup id reg) [ none ↦ false | some s ↦ true ]
