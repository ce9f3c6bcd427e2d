-- ===== src/Static/Channel/Tests.antt =====
-- The channel over a list of at most two items.
use uefi_async.Base.{
  ◌⊎◌, take, ℕ, ◌+◌, ◌≤◌, ◌≡◌, refl, arith, List, [], ◌∷◌, ◌++◌, length, none, some, true, ltb,
  ◌==◌, if◌then◌else◌,
}
use uefi_async.Base.Fifo.{FifoOps, FifoLaws}
use uefi_async.Base.Fifo.Bounded.{list_ops, list_laws}
use uefi_async.Static.Channel.{poll_send}
use uefi_async.Static.Channel.Polls.{Event, sends, receives, Channel, of_option, accepted, received}
use uefi_async.Static.Channel.Deliveries.{all_accepted, all_received, after, deliveries}

abbrev ops : FifoOps ℕ
ops = list_ops 2

abbrev laws : FifoLaws ops
laws = list_laws 2

-- Sender 3 finds the queue full, and is polled again later.
abbrev polls : List Event
polls = sends 1 ∷ sends 2 ∷ sends 3 ∷ receives ∷ sends 3 ∷ receives ∷ []

abbrev full : List Event
full = sends 1 ∷ sends 2 ∷ sends 3 ∷ []

abbrev waiting : Channel ops
waiting = record { held = λ i. if ltb i 5 then some (i + 70) else none; queue = [] }

still_held : (after ops full waiting).held 3 ≡ some 73
unfolding poll_send
still_held = refl

deliveries_example :
    (all_received ops polls waiting ++ laws.items (after ops polls waiting).queue
      ≡ laws.items waiting.queue ++ all_accepted ops (λ _. true) polls waiting)
    × (length (laws.items (after ops polls waiting).queue) ≤ laws.capacity)
    × (all_accepted ops (λ j. j == 3) polls waiting ++ of_option ((after ops polls waiting).held 3)
        ≡ of_option (waiting.held 3))
    × ((length (laws.items (after ops polls waiting).queue) ≡ laws.capacity)
        ⊎ (accepted ops (λ j. j == 3) (sends 3) (after ops polls waiting)
            ≡ of_option ((after ops polls waiting).held 3)))
    × (received ops receives (after ops polls waiting)
        ≡ take 1 (laws.items (after ops polls waiting).queue))
unfolding list_laws
deliveries_example = deliveries ops laws polls 3 waiting (omega arith)
