-- ===== src/Static/Channel/Deliveries.antt =====
-- What senders and receivers of one channel (async/src/no_alloc/channel.rs) give each other, in
-- whatever order their futures are polled.
use uefi_async.Base.{
  ◌⊎◌, take, ◌≤◌, ◌≡◌, refl, sym, ap, ◌∙◌, List, [], ◌∷◌, ◌++◌, length, ℕ, Bool, true, ◌==◌,
  append_assoc, append-nil,
}
use uefi_async.Base.Fifo.{FifoOps, FifoLaws}
use uefi_async.Static.Channel.Polls.{
  Event, sends, receives, of_option, Channel, accepted, received, next, keeps, kept, accepted_room,
  received_first,
}

module _ {A : Type 0} (ops : FifoOps A) where
  -- Over a sequence of polls.
  abbrev pub all_accepted : (ℕ → Bool) → List Event → Channel ops → List A
  all_accepted who [] c = []
  all_accepted who (e ∷ es) c = accepted ops who e c ++ all_accepted who es (next ops e c)

  abbrev pub all_received : List Event → Channel ops → List A
  all_received [] c = []
  all_received (e ∷ es) c = received ops e c ++ all_received es (next ops e c)

  abbrev pub after : List Event → Channel ops → Channel ops
  after [] c = c
  after (e ∷ es) c = after es (next ops e c)

  module _ (laws : FifoLaws ops) where
    -- However the polls of senders and receivers are ordered, with full queues also: the items
    -- received, in order, and then those still in the queue are those that were in it and then those
    -- that the senders were told to be sent, in order; the queue does not outgrow its capacity; and
    -- any sender `i` that held an item is told once that it is sent, and holds none then, or else
    -- still holds it. A poll that comes next succeeds when it can: one of sender `i` with its item,
    -- unless the queue is full, and one of a receiver with the oldest item, if there is any.
    pub deliveries :
        (es : List Event) (i : ℕ) (c : Channel ops)
        → length (laws.items c.queue) ≤ laws.capacity
        → (all_received es c ++ laws.items (after es c).queue
            ≡ laws.items c.queue ++ all_accepted (λ _. true) es c)
          × (length (laws.items (after es c).queue) ≤ laws.capacity)
          × (all_accepted (λ j. j == i) es c ++ of_option ((after es c).held i)
              ≡ of_option (c.held i))
          × ((length (laws.items (after es c).queue) ≡ laws.capacity)
              ⊎ (accepted ops (λ j. j == i) (sends i) (after es c)
                  ≡ of_option ((after es c).held i)))
          × (received ops receives (after es c) ≡ take 1 (laws.items (after es c).queue))
    deliveries [] i c h = (
      sym (append-nil (laws.items c.queue)),
      h,
      refl,
      accepted_room ops laws i c h,
      received_first ops laws c (laws.items c.queue) refl,
    )
    deliveries (e ∷ es) i c h =
        let (one, fits) = keeps ops laws e c h in
        let (rest, fits', held, can_send, can_receive) = deliveries es i (next ops e c) fits in
        (
          append_assoc (received ops e c) (all_received es (next ops e c))
                (laws.items (after es (next ops e c)).queue)
              ∙ ap (λ l. received ops e c ++ l) rest
              ∙ sym (
                  append_assoc (received ops e c) (laws.items (next ops e c).queue)
                    (all_accepted (λ _. true) es (next ops e c)))
              ∙ ap (λ l. l ++ all_accepted (λ _. true) es (next ops e c)) one
              ∙ append_assoc (laws.items c.queue) (accepted ops (λ _. true) e c)
                  (all_accepted (λ _. true) es (next ops e c)),
          fits',
          append_assoc (accepted ops (λ j. j == i) e c)
                (all_accepted (λ j. j == i) es (next ops e c))
                (of_option ((after es (next ops e c)).held i))
              ∙ ap (λ l. accepted ops (λ j. j == i) e c ++ l) held
              ∙ kept ops laws i e c h,
          can_send,
          can_receive,
        )
