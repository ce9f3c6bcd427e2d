-- ===== src/Static/Channel.antt =====
-- async/src/no_alloc/channel.rs: a channel over a queue of the crate `nblfq`, whose operations are
-- the parameter `ops`.
pub mod Polls
pub mod Deliveries
pub mod Tests
use uefi_async.Base.{
  ℕ, zero, suc, Option, none, some, Poll, ready, pending, Result, ok, err, if◌then◌else◌,
}
use uefi_async.Base.Fifo.{FifoOps}

module _ {A : Type 0} (ops : FifoOps A) where
  -- `Sender::try_send`
  abbrev pub try_send : ops.Queue → A → Result A (Unit {0}) × ops.Queue
  try_send q item = ops.push q item

  -- `Receiver::try_recv`
  abbrev pub try_recv : ops.Queue → Option A × ops.Queue
  try_recv q = ops.pop q

  -- `SendFuture::poll` at the item it holds: the result, `none` for its panic, the item it then
  -- holds, and the queue.
  unfoldable pub poll_send :
      Option A → ops.Queue → Option (Poll (Result A (Unit {0}))) × Option A × ops.Queue
  poll_send none q = (none, none, q)
  poll_send (some item) q =
      let (r, q') = try_send q item in
      elim r [ ok u ↦ (some (ready (ok tt)), none, q') | err e ↦ (some pending, some e, q') ]

  -- `RecvFuture::poll`
  unfoldable pub poll_recv : ops.Queue → Poll A × ops.Queue
  poll_recv q = let (r, q') = try_recv q in elim r [ some v ↦ (ready v, q') | none ↦ (pending, q') ]
