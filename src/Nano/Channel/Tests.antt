-- ===== src/Nano/Channel/Tests.antt =====
-- The channels over lists.
use uefi_async.Base.{List, Option, ap, ℕ, ◌≡◌, refl, arith, [], ◌∷◌, ◌++◌, some, none, ready}
use uefi_async.Base.Fifo.{FifoOps, FifoLaws}
use uefi_async.Base.Fifo.Bounded.{list_ops, list_laws}
use uefi_async.Nano.Channel.Cores.{
  SegLaws, Access, sends, polls, from_core, all_received, queue_after, core_deliveries,
}
use uefi_async.Nano.Channel.{SegOps, Sending, begun, poll_send_async}
use uefi_async.Nano.Channel.Retries.{waits, send_async_lem}

abbrev ops : FifoOps ℕ
ops = list_ops 1

abbrev laws : FifoLaws ops
laws = list_laws 1

send_async_lem_example :
    (s : Sending ℕ) × (waits ops (begun 3) ((1 ∷ []) ∷ (2 ∷ []) ∷ []) ≡ some s)
    × (let (r, s', q') = poll_send_async ops s [] in
        (r ≡ some (ready tt))
        × (laws.items q' ≡ laws.items [] ++ 3 ∷ [])
        × ((poll_send_async ops s' q').0 ≡ none))
unfolding list_laws
send_async_lem_example =
    send_async_lem ops laws 3 ((1 ∷ []) ∷ (2 ∷ []) ∷ []) [] (refl, (refl, tt)) (omega arith)

-- An unbounded list.
abbrev pop_of : List (ℕ × ℕ) → Option (ℕ × ℕ) × List (ℕ × ℕ)
pop_of [] = (none, [])
pop_of (a ∷ rest) = (some a, rest)

abbrev seg : SegOps (ℕ × ℕ)
seg = record { Queue = List (ℕ × ℕ); push = λ q a. q ++ a ∷ []; pop = pop_of }

abbrev seg_laws : SegLaws seg
seg_laws = record {
  items = λ q. q;
  push_last = λ q a. refl;
  pop_first = λ q a rest e. (ap (λ l. (pop_of l).0) e, ap (λ l. (pop_of l).1) e);
  pop_none = λ q e. (ap (λ l. (pop_of l).0) e, ap (λ l. (pop_of l).1) e);
}

-- Two cores send, and the receiver is polled too early once.
abbrev accesses : List (Access ℕ)
accesses = polls ∷ sends 1 10 ∷ sends 2 20 ∷ polls ∷ sends 1 11 ∷ polls ∷ []

core_deliveries_example :
    from_core 1 (all_received seg accesses []) ++ from_core 1 (queue_after seg accesses [])
    ≡ 10 ∷ 11 ∷ []
core_deliveries_example = core_deliveries seg seg_laws accesses [] 1
