-- ===== src/Nano/Channel/Retries.antt =====
-- `send_async` of async/src/nano_alloc/channel.rs on a queue that is full for some time.
use uefi_async.Base.{
  ◌<◌, ◌≡◌, refl, ◌∙◌, arith, List, [], ◌∷◌, ◌++◌, Option, none, some, ready, pending, ok, err, All,
  length,
}
use uefi_async.Base.Fifo.{FifoOps, FifoLaws}
use uefi_async.Nano.Channel.{Sending, begun, yielding, returned, poll_send_async}

module _ {A : Type 0} (ops : FifoOps A) where
  -- The future after polls that find the queue in these states; `none` if one is not pending.
  abbrev pub waits : Sending A → List ops.Queue → Option (Sending A)
  waits s [] = some s
  waits s (q ∷ qs) =
      let rest = waits (poll_send_async ops s q).1 qs in
      elim (poll_send_async ops s q).0 [ some pending ↦ rest | some (ready u) ↦ none | none ↦ none ]

  poll-full :
      (d : A) (q : ops.Queue)
      → (ops.push q d).0 ≡ err d
      → (poll_send_async ops (begun d) q ≡ (some pending, yielding d, (ops.push q d).1))
        × (poll_send_async ops (yielding d) q ≡ (some pending, yielding d, (ops.push q d).1))
  unfolding poll_send_async
  poll-full d q e = (ground arith, ground arith)

  poll-room :
      (d : A) (q : ops.Queue)
      → (ops.push q d).0 ≡ ok tt
      → (poll_send_async ops (begun d) q ≡ (some (ready tt), returned, (ops.push q d).1))
        × (poll_send_async ops (yielding d) q ≡ (some (ready tt), returned, (ops.push q d).1))
  unfolding poll_send_async
  poll-room d q e = (ground arith, ground arith)

  poll-returned : (q : ops.Queue) → (poll_send_async ops returned q).0 ≡ none
  unfolding poll_send_async
  poll-returned q = refl

  waits-pending :
      (s s' : Sending A) (q q' : ops.Queue) (qs : List ops.Queue)
      → poll_send_async ops s q ≡ (some pending, s', q')
      → waits s (q ∷ qs) ≡ waits s' qs
  waits-pending s s' q q' qs e = ground arith

  waits-full :
      (laws : FifoLaws ops) (d : A) (qs : List ops.Queue)
      → All (λ q. length (laws.items q) ≡ laws.capacity) qs
      → waits (yielding d) qs ≡ some (yielding d)
  waits-full laws d [] hs = refl
  waits-full laws d (q ∷ qs) hs =
      let (first, later) = poll-full d q (laws.push_full q d hs.0).0 in
      waits-pending (yielding d) (yielding d) q _ qs later ∙ waits-full laws d qs hs.1

  -- `send_async` polled while the queue is full is pending each time and keeps its item; at the first
  -- poll that finds room it puts the item at the end of the queue and returns, and a poll after that
  -- panics.
  pub send_async_lem :
      (laws : FifoLaws ops) (d : A) (qs : List ops.Queue) (q : ops.Queue)
      → All (λ q. length (laws.items q) ≡ laws.capacity) qs
      → length (laws.items q) < laws.capacity
      → (s : Sending A) × (waits (begun d) qs ≡ some s)
        × (let (r, s', q') = poll_send_async ops s q in
            (r ≡ some (ready tt))
            × (laws.items q' ≡ laws.items q ++ d ∷ [])
            × ((poll_send_async ops s' q').0 ≡ none))
  send_async_lem laws d [] q hs room =
      let (done, more) = laws.push_room q d room in
      (begun d, refl, rw ((poll-room d q done).0) (refl, more, poll-returned (ops.push q d).1))
  send_async_lem laws d (full ∷ qs) q hs room =
      let (done, more) = laws.push_room q d room in
      let (first, later) = poll-full d full (laws.push_full full d hs.0).0 in
      (
        yielding d,
        waits-pending (begun d) (yielding d) full _ qs first ∙ waits-full laws d qs hs.1,
        rw ((poll-room d q done).1) (refl, more, poll-returned (ops.push q d).1),
      )
