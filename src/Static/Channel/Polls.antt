-- ===== src/Static/Channel/Polls.antt =====
-- What one poll of a sender or of a receiver of a channel (async/src/no_alloc/channel.rs) keeps.
use native.Mathlib.Decide.{dec_lt}
use uefi_async.Base.{
  ◌<◌, ◌⊎◌, inl, inr, take, length-append, ◌≤◌, ◌≡◌, refl, sym, ap, ◌∙◌, List, [], ◌∷◌, ◌++◌, none,
  some, ready, pending, ok, err, length, ℕ, Bool, true, Option, Poll, Result, ◌==◌, if◌then◌else◌,
  arith, append-nil,
}
use uefi_async.Base.Fifo.{FifoOps, FifoLaws}
use uefi_async.Static.Channel.{poll_send, poll_recv}

-- A poll of the future of sender number `i`, or of a receiver's.
pub data Event : Type 0 where
  sends : ℕ → Event
  receives : Event

abbrev pub of_option : {A : Type 0} → Option A → List A
of_option none = []
of_option (some a) = a ∷ []

-- The senders' futures, by the items that they hold, and the queue.
pub record Channel {A : Type 0} (ops : FifoOps A) : Type 0 where
  pub held : ℕ → Option A
  pub queue : ops.Queue

module _ {A : Type 0} (ops : FifoOps A) where
  -- What a sender is told to be sent: the item that it held, when its poll is ready.
  abbrev told : Option A → Option (Poll (Result A (Unit {0}))) → List A
  told held (some (ready r)) = of_option held
  told held (some pending) = []
  told held none = []

  -- The items that the senders in `who` are told to be sent, and those that receivers get.
  abbrev pub accepted : (ℕ → Bool) → Event → Channel ops → List A
  accepted who (sends i) c =
      if who i then told (c.held i) (poll_send ops (c.held i) c.queue).0 else []
  accepted who receives c = []

  abbrev pub received : Event → Channel ops → List A
  received (sends i) c = []
  received receives c = elim (poll_recv ops c.queue).0 [ ready a ↦ a ∷ [] | pending ↦ [] ]

  abbrev pub next : Event → Channel ops → Channel ops
  next (sends i) c =
      let (r, item, q) = poll_send ops (c.held i) c.queue in
      record { held = λ j. if j == i then item else c.held j; queue = q }
  next receives c = record c { queue = (poll_recv ops c.queue).1 }

  poll_send-ok :
      (q : ops.Queue) (a : A)
      → (ops.push q a).0 ≡ ok tt
      → poll_send ops (some a) q ≡ (some (ready (ok tt)), none, (ops.push q a).1)
  unfolding poll_send
  poll_send-ok q a e = ground arith

  poll_send-err :
      (q : ops.Queue) (a : A)
      → (ops.push q a).0 ≡ err a
      → poll_send ops (some a) q ≡ (some pending, some a, (ops.push q a).1)
  unfolding poll_send
  poll_send-err q a e = ground arith

  poll_recv-some :
      (q : ops.Queue) (a : A) → (ops.pop q).0 ≡ some a → poll_recv ops q ≡ (ready a, (ops.pop q).1)
  unfolding poll_recv
  poll_recv-some q a e = ground arith

  poll_recv-none :
      (q : ops.Queue) → (ops.pop q).0 ≡ none → poll_recv ops q ≡ (pending, (ops.pop q).1)
  unfolding poll_recv
  poll_recv-none q e = ground arith

  module _ (laws : FifoLaws ops) where
    -- What a poll of a sender that holds `held` keeps: the queue has the item told to be sent behind
    -- its items, and does not outgrow its capacity; the item held is told to be sent or held on.
    abbrev Sends : Option A → ops.Queue → Type 0
    Sends held q =
        let (r, item, q') = poll_send ops held q in
        (laws.items q' ≡ laws.items q ++ told held r)
        × (length (laws.items q') ≤ laws.capacity)
        × (told held r ++ of_option item ≡ of_option held)

    poll_send-Sends :
        (held : Option A) (q : ops.Queue) → length (laws.items q) ≤ laws.capacity → Sends held q
    unfolding poll_send
    poll_send-Sends none q h = (sym (append-nil (laws.items q)), h, refl)
    poll_send-Sends (some a) q h = elim (dec_lt (length (laws.items q)) laws.capacity) [
      | yes lt ↦
          let (done, more) = laws.push_room q a lt in
          rw (Sends, poll_send-ok q a done)
            (more, omega (arith, ap length more, length-append (laws.items q) (a ∷ [])), refl)
      | no full ↦
          let (failed, same) = laws.push_full q a (omega arith) in
          rw (Sends, poll_send-err q a failed)
            (same ∙ sym (append-nil (laws.items q)), omega (arith, ap length same), refl)
    ]

    -- What any poll keeps: the items received, then those in the queue, are those before it and then
    -- the one accepted; and the queue does not outgrow its capacity.
    abbrev Keeps : Event → Channel ops → Type 0
    Keeps e c =
        (received e c ++ laws.items (next e c).queue
          ≡ laws.items c.queue ++ accepted (λ _. true) e c)
        × (length (laws.items (next e c).queue) ≤ laws.capacity)

    Keeps-receives :
        (c : Channel ops) (xs : List A)
        → laws.items c.queue ≡ xs
        → length (laws.items c.queue) ≤ laws.capacity
        → Keeps receives c
    Keeps-receives c [] e h =
        let (failed, same) = laws.pop_none c.queue e in
        rw (Keeps, received, next, poll_recv-none c.queue failed)
          (same ∙ sym (ap (λ l. l ++ []) e), omega (arith, ap length same))
    Keeps-receives c (x ∷ xs) e h =
        let (done, rest) = laws.pop_first c.queue x xs e in
        rw (Keeps, received, next, poll_recv-some c.queue x done)
          (
            ap (λ l. x ∷ l) rest ∙ sym e ∙ sym (append-nil (laws.items c.queue)),
            omega (arith, ap length rest, ap length e),
          )

    pub keeps :
        (e : Event) (c : Channel ops) → length (laws.items c.queue) ≤ laws.capacity → Keeps e c
    keeps (sends i) c h =
        let (more, fits, kept) = poll_send-Sends (c.held i) c.queue h in (more, fits)
    keeps receives c h = Keeps-receives c (laws.items c.queue) refl h

    -- Of sender `i`, a poll of sender `j` accepts the item held or leaves it held.
    one_kept :
        (i j : ℕ) (c : Channel ops)
        → length (laws.items c.queue) ≤ laws.capacity
        → accepted (λ k. k == i) (sends j) c ++ of_option ((next (sends j) c).held i)
          ≡ of_option (c.held i)
    one_kept i j c h = grind (arith, (poll_send-Sends (c.held j) c.queue h).2)

    pub kept :
        (i : ℕ) (e : Event) (c : Channel ops)
        → length (laws.items c.queue) ≤ laws.capacity
        → accepted (λ k. k == i) e c ++ of_option ((next e c).held i) ≡ of_option (c.held i)
    kept i (sends j) c h = one_kept i j c h
    kept i receives c h = refl

    told_room :
        (held : Option A) (q : ops.Queue)
        → length (laws.items q) < laws.capacity
        → told held (poll_send ops held q).0 ≡ of_option held
    unfolding poll_send
    told_room none q h = refl
    told_room (some a) q h = rw (poll_send-ok q a (laws.push_room q a h).0) refl

    pub accepted_room :
        (i : ℕ) (c : Channel ops)
        → length (laws.items c.queue) ≤ laws.capacity
        → (length (laws.items c.queue) ≡ laws.capacity)
          ⊎ (accepted (λ j. j == i) (sends i) c ≡ of_option (c.held i))
    accepted_room i c h = elim (dec_lt (length (laws.items c.queue)) laws.capacity) [
      | yes lt ↦ inr (grind (arith, told_room (c.held i) c.queue lt))
      | no full ↦ inl (omega arith)
    ]

    pub received_first :
        (c : Channel ops) (xs : List A) → laws.items c.queue ≡ xs → received receives c ≡ take 1 xs
    received_first c [] e = rw (received, poll_recv-none c.queue (laws.pop_none c.queue e).0) refl
    received_first c (x ∷ xs) e =
        rw (received, poll_recv-some c.queue x (laws.pop_first c.queue x xs e).0) refl
