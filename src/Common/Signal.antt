-- ===== src/Common/Signal.antt =====
-- async/src/common/signal.rs. The single-core signals are the `Option` in their cell. The multi-core
-- signal is in steps that other cores' steps come between: an access of the flag, or a stretch with
-- the lock held; memory is sequentially consistent.
pub mod Mailbox
pub mod Tests
use uefi_async.Base.{
  ℕ, zero, suc, ◌+◌, Bool, true, false, List, [], ◌∷◌, Option, none, some, Poll, ready, pending,
  if◌then◌else◌,
}

-- `Signal` and `UnsafeSignal`
abbrev pub is_triggered : {A : Type 0} → Option A → Bool
is_triggered (some a) = true
is_triggered none = false

abbrev pub signal : {A : Type 0} → Option A → A → Option A
signal cell value = some value

abbrev pub poll : {A : Type 0} → Option A → Poll A × Option A
poll (some data_) = (ready data_, none)
poll none = (pending, none)

-- `MultiCoreSignal` and the calls under way: `writers` have stored their data and not yet set the
-- flag, `resets` have cleared the flag and not yet the data, `pollers` have seen the flag set and not
-- yet taken the lock; `taking` is whether one holds the lock that has taken the data.
pub record MultiCoreSignal (A : Type 0) : Type 0 where
  pub data_ : Option A
  pub has_data : Bool
  pub writers : ℕ
  pub resets : ℕ
  pub pollers : ℕ
  pub taking : Bool

abbrev pub new : {A : Type 0} → MultiCoreSignal A
new = record {
  data_ = none;
  has_data = false;
  writers = 0;
  resets = 0;
  pollers = 0;
  taking = false;
}

-- `signal` is `write` and `set`; `reset` is `unset` and `clear`; a poll is `check` and, if the flag
-- is set, `take` and, if there is data, `finish`.
pub data Step (A : Type 0) : Type 0 where
  write : A → Step A
  set unset clear check take finish : Step A

module _ {A : Type 0} where
  -- The next state, or nothing if no call can take this step.
  unfoldable pub step : Step A → MultiCoreSignal A → Option (MultiCoreSignal A)
  step (write a) s =
      if s.taking then none else some (record s { data_ = some a; writers = suc s.writers })
  step set s = elim s.writers [
    | zero ↦ none
    | suc n ↦ some (record s { has_data = true; writers = n })
  ]
  step unset s = some (record s { has_data = false; resets = suc s.resets })
  step clear s = elim s.resets [
    | zero ↦ none
    | suc n ↦ if s.taking then none else some (record s { data_ = none; resets = n })
  ]
  step check s = some (if s.has_data then record s { pollers = suc s.pollers } else s)
  step take s = elim s.pollers [
    | zero ↦ none
    | suc n ↦
        if s.taking
        then none
        else some (record s { data_ = none; taking = is_triggered s.data_; pollers = n })
  ]
  step finish s = if s.taking then some (record s { has_data = false; taking = false }) else none

  -- The states that a sequence of steps leads to.
  abbrev pub run : List (Step A) → MultiCoreSignal A → Option (MultiCoreSignal A)
  run [] s = some s
  run (x ∷ xs) s = elim (step x s) [ none ↦ none | some s' ↦ run xs s' ]
