-- ===== src/Static/Task.antt =====
-- async/src/no_alloc/task.rs and waker.rs: the state of a task, the pool that a task's slot comes
-- from, and the wake policy of its control byte. A slot's storage is the future in it, if any, and
-- the address that `StaticFuture` keeps, 0 before the first use.
pub mod Pool
pub mod Tests
use Prim.Native.Nat.{bit_and}
use uefi_async.Base.{
  ℕ, zero, suc, ◌+◌, ◌%◌, Bool, true, false, not, Option, none, some, List, [], ◌∷◌, ◌==◌,
  if◌then◌else◌,
}

pub data State : Type 0 where
  free initialized ready running yielded waiting unreachable : State

-- `IntoPrimitive` and `FromPrimitive` of `State`, with its default.
abbrev pub into : State → ℕ
into free = 0
into initialized = 1
into ready = 2
into running = 3
into yielded = 4
into waiting = 5
into unreachable = 6

abbrev pub from : ℕ → State
from zero = free
from (suc zero) = initialized
from (suc (suc zero)) = ready
from (suc (suc (suc zero))) = running
from (suc (suc (suc (suc zero)))) = yielded
from (suc (suc (suc (suc (suc zero))))) = waiting
from (suc (suc (suc (suc (suc (suc n)))))) = unreachable

pub record TaskHeader : Type 0 where
  pub control : ℕ
  pub state : ℕ

-- `AtomicU8::compare_exchange` on the state: whether it succeeds, and the header.
abbrev pub compare_exchange : TaskHeader → State → State → Bool × TaskHeader
compare_exchange h old new =
    if h.state == into old then (true, record h { state = into new }) else (false, h)

pub record TaskSlot (F : Type 0) : Type 0 where
  pub header : TaskHeader
  pub address : ℕ
  pub future : Option F

-- `TaskSlot::new`
abbrev pub new_slot : {F : Type 0} → TaskSlot F
new_slot = record { header = record { control = 0; state = into free }; address = 0; future = none }

-- `StaticFuture::init`, for a slot whose cell stands at the address `here`. The cell is a
-- `StaticCell`, whose `uninit` panics (`none`) at its second use; it is used when `address` is 0.
-- Otherwise the future that is there is dropped and overwritten.
abbrev pub init_future : {F : Type 0} → ℕ → TaskSlot F → F → TaskSlot F
init_future here slot future =
    if slot.address == 0
    then record slot { address = here; future = some future }
    else record slot { future = some future }

-- `TaskPool::init` on the slots from number `i` on: the number of the slot taken and the slots, or a
-- panic, `none`. Slot `i` stands at the address `i + 1`.
unfoldable pub init : {F : Type 0} → ℕ → List (TaskSlot F) → F → Option (ℕ × List (TaskSlot F))
init i [] future = none
init i (slot ∷ slots) future =
    let rest = init (suc i) slots future in
    let (exchanged, header') = compare_exchange slot.header free initialized in
    if exchanged
    then some (i, init_future (suc i) (record slot { header = header' }) future ∷ slots)
    else (elim rest [ none ↦ none | some found ↦ some (found.0, slot ∷ found.1) ])

pub data WakePolicy : Type 0 where
  poll_only interrupt_only hybrid : WakePolicy

-- `WakePolicy::unpack`; `none` for its panic.
abbrev pub policy_of : ℕ → Option WakePolicy
policy_of zero = some poll_only
policy_of (suc zero) = some interrupt_only
policy_of (suc (suc zero)) = some hybrid
policy_of (suc (suc (suc n))) = none

abbrev pub unpack : ℕ → Option (WakePolicy × Bool)
unpack control = elim (policy_of (bit_and control 3)) [
  | none ↦ none
  | some policy ↦ some (policy, not (bit_and control 128 == 0))
]

abbrev pub should_poll : WakePolicy → Bool → Bool
should_poll poll_only is_waked = true
should_poll hybrid is_waked = true
should_poll interrupt_only is_waked = is_waked
