-- ===== src/Nano/Channel/Deliveries.antt =====
-- What the single-core channels of async/src/nano_alloc/channel.rs deliver.
use uefi_async.Base.{
  ◌≡◌, sym, ap, ◌∙◌, List, [], ◌∷◌, ◌++◌, append_assoc, append-nil, Poll, ready, pending,
}
use uefi_async.Nano.Channel.{send, poll}

pub data Event (A : Type 0) : Type 0 where
  sends : A → Event A
  polls : Event A

module _ {A : Type 0} where
  abbrev pub after : List (Event A) → List A → List A
  after [] q = q
  after (sends a ∷ es) q = after es (send q a)
  after (polls ∷ es) q = after es (poll q).1

  abbrev pub sent : List (Event A) → List A
  sent [] = []
  sent (sends a ∷ es) = a ∷ sent es
  sent (polls ∷ es) = sent es

  -- What a poll gives.
  abbrev pub given : Poll A → List A
  given (ready a) = a ∷ []
  given pending = []

  abbrev pub received : List (Event A) → List A → List A
  received [] q = []
  received (sends a ∷ es) q = received es (send q a)
  received (polls ∷ es) q = given (poll q).0 ++ received es (poll q).1

  -- However sends and polls are ordered, the items received, in order, and then those still in the
  -- queue are those that were in it and then all that were sent.
  unbounded_deliveries :
      (es : List (Event A)) (q : List A) → received es q ++ after es q ≡ q ++ sent es
  unbounded_deliveries [] q = sym (append-nil q)
  unbounded_deliveries (sends a ∷ es) q =
      unbounded_deliveries es (send q a) ∙ append_assoc q (a ∷ []) (sent es)
  unbounded_deliveries (polls ∷ es) [] = unbounded_deliveries es []
  unbounded_deliveries (polls ∷ es) (x ∷ q) = ap (λ l. x ∷ l) (unbounded_deliveries es q)
