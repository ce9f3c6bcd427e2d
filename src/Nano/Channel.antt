-- ===== src/Nano/Channel.antt =====
-- async/src/nano_alloc/channel.rs. The single-core channels share an `Option` (oneshot) or a
-- `VecDeque` (unbounded, and the one called bounded), which are modelled as the value and the list
-- they hold. The multi-core channels are over queues of crossbeam, the parameters `ops`: `ArrayQueue`
-- (bounded) and `SegQueue` (unbounded).
pub mod Deliveries
pub mod Retries
pub mod Cores
pub mod Tests
use uefi_async.Base.{
  ℕ, List, [], ◌∷◌, ◌++◌, Option, none, some, Poll, ready, pending, Result, ok, err,
}
use uefi_async.Base.Fifo.{FifoOps}

-- `single::oneshot` and `multiple::oneshot`: `Oneshot::send` and the receiver's poll.
abbrev pub oneshot_send : {A : Type 0} → Option A → A → Option A
oneshot_send slot value = some value

abbrev pub oneshot_poll : {A : Type 0} → Option A → Poll A × Option A
oneshot_poll (some val) = (ready val, none)
oneshot_poll none = (pending, none)

-- `single::unbounded_channel`: `ChannelSender::send` and the receiver's poll.
abbrev pub send : {A : Type 0} → List A → A → List A
send queue value = queue ++ value ∷ []

abbrev pub poll : {A : Type 0} → List A → Poll A × List A
poll [] = (pending, [])
poll (value ∷ queue) = (ready value, queue)

-- `single::bounded_channel`: its capacity is only the room reserved at first.
abbrev pub unsafe_send : {A : Type 0} → List A → A → List A
unsafe_send queue value = queue ++ value ∷ []

abbrev pub unsafe_poll : {A : Type 0} → List A → Poll A × List A
unsafe_poll [] = (pending, [])
unsafe_poll (value ∷ queue) = (ready value, queue)

-- The states of the future of `send_async`: before its first poll, in `Yield.await`, and returned.
pub data Sending (A : Type 0) : Type 0 where
  begun : A → Sending A
  yielding : A → Sending A
  returned : Sending A

-- The operations of `SegQueue` that are called.
pub record SegOps (A : Type 0) : Type 1 where
  pub Queue : Type 0
  pub push : Queue → A → Queue
  pub pop : Queue → Option A × Queue

-- `multiple::unbounded_channel`: `ChannelSender::send` and the receiver's poll.
unfoldable pub seg_send : {A : Type 0} (ops : SegOps A) → ops.Queue → A → ops.Queue
seg_send ops q value = ops.push q value

unfoldable pub polled : {A Q : Type 0} → Option A × Q → Poll A × Q
polled (some value, q) = (ready value, q)
polled (none, q) = (pending, q)

unfoldable pub seg_poll : {A : Type 0} (ops : SegOps A) → ops.Queue → Poll A × ops.Queue
seg_poll ops q = polled (ops.pop q)

-- `multiple::bounded_channel`
module _ {A : Type 0} (ops : FifoOps A) where
  abbrev pub try_send : ops.Queue → A → Result A (Unit {0}) × ops.Queue
  try_send q value = ops.push q value

  -- One round of the loop, up to the first poll of `Yield`, which is pending.
  abbrev pub attempt : A → ops.Queue → Option (Poll (Unit {0})) × Sending A × ops.Queue
  attempt data_ q =
      let (r, q') = try_send q data_ in
      elim r [ ok u ↦ (some (ready tt), returned, q') | err d ↦ (some pending, yielding d, q') ]

  -- A poll of `send_async`; `none` is the panic of a future that has returned. The second poll of
  -- `Yield` is ready, and the loop goes round.
  unfoldable pub poll_send_async :
      Sending A → ops.Queue → Option (Poll (Unit {0})) × Sending A × ops.Queue
  poll_send_async (begun d) q = attempt d q
  poll_send_async (yielding d) q = attempt d q
  poll_send_async returned q = (none, returned, q)

  -- The receiver's poll.
  unfoldable pub poll_receiver : ops.Queue → Poll A × ops.Queue
  poll_receiver q =
      let (r, q') = ops.pop q in elim r [ some value ↦ (ready value, q') | none ↦ (pending, q') ]
