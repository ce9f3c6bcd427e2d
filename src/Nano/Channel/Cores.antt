-- ===== src/Nano/Channel/Cores.antt =====
-- The unbounded channel of several cores (async/src/nano_alloc/channel.rs), over the queue `SegQueue` of
-- the crate crossbeam: each operation on it is one step, and the steps of the cores are in any order.
use uefi_async.Base.{
  ℕ, Option, ◌≡◌, refl, sym, ap, ◌∙◌, List, [], ◌∷◌, ◌++◌, append_assoc, append-nil, none, some,
  Poll, ready, pending, ◌==◌, if◌then◌else◌, Bool-cases, inl, inr,
}
use uefi_async.Nano.Channel.{SegOps, seg_send, polled, seg_poll}

-- What the documentation says of `SegQueue`: it is unbounded, and first in first out.
pub record SegLaws {A : Type 0} (ops : SegOps A) : Type 0 where
  pub items : ops.Queue → List A
  pub push_last : (q : ops.Queue) (a : A) → items (ops.push q a) ≡ items q ++ a ∷ []
  pub pop_first :
      (q : ops.Queue) (a : A) (rest : List A)
      → items q ≡ a ∷ rest
      → ((ops.pop q).0 ≡ some a) × (items (ops.pop q).1 ≡ rest)
  pub pop_none :
      (q : ops.Queue) → items q ≡ [] → ((ops.pop q).0 ≡ none) × (items (ops.pop q).1 ≡ [])

-- A core sends a value, or a receiver is polled.
pub data Access (B : Type 0) : Type 0 where
  sends : ℕ → B → Access B
  polls : Access B

-- The values that came from a core.
abbrev pub from_core : {B : Type 0} → ℕ → List (ℕ × B) → List B
from_core c [] = []
from_core c ((core, b) ∷ rest) =
    let others = from_core c rest in if core == c then b ∷ others else others

from_core-append :
    {B : Type 0} (c : ℕ) (xs ys : List (ℕ × B))
    → from_core c (xs ++ ys) ≡ from_core c xs ++ from_core c ys
from_core-append c [] ys = refl
from_core-append c ((core, b) ∷ xs) ys = elim (Bool-cases (core == c)) [
  | inl e ↦ rw e (ap (λ l. b ∷ l) (from_core-append c xs ys))
  | inr e ↦ rw e (from_core-append c xs ys)
]

abbrev pub all_sent : {B : Type 0} → List (Access B) → List (ℕ × B)
all_sent [] = []
all_sent (sends core b ∷ es) = (core, b) ∷ all_sent es
all_sent (polls ∷ es) = all_sent es

abbrev pub output_of : {A : Type 0} → Poll A → List A
output_of (ready a) = a ∷ []
output_of pending = []

module _ {B : Type 0} (ops : SegOps (ℕ × B)) where
  abbrev pub queue_after : List (Access B) → ops.Queue → ops.Queue
  queue_after [] q = q
  queue_after (sends core b ∷ es) q = queue_after es (seg_send ops q (core, b))
  queue_after (polls ∷ es) q = queue_after es (seg_poll ops q).1

  abbrev pub all_received : List (Access B) → ops.Queue → List (ℕ × B)
  all_received [] q = []
  all_received (sends core b ∷ es) q = all_received es (seg_send ops q (core, b))
  all_received (polls ∷ es) q = output_of (seg_poll ops q).0 ++ all_received es (seg_poll ops q).1

  module _ (laws : SegLaws ops) where
    seg_poll_lem :
        (q : ops.Queue)
        → output_of (seg_poll ops q).0 ++ laws.items (seg_poll ops q).1 ≡ laws.items q
    unfolding seg_poll polled
    seg_poll_lem q = go (laws.items q) refl
      where
        shown : Option (ℕ × B) → List (ℕ × B)
        shown o = let (r, q') = polled (o, (ops.pop q).1) in output_of r ++ laws.items q'

        go :
            (l : List (ℕ × B))
            → laws.items q ≡ l
            → output_of (seg_poll ops q).0 ++ laws.items (seg_poll ops q).1 ≡ l
        go [] e = let (p, r) = laws.pop_none q e in ap shown p ∙ r
        go (a ∷ rest) e = let (p, r) = laws.pop_first q a rest e in ap shown p ∙ ap (λ l. a ∷ l) r

    received_lem :
        (es : List (Access B)) (q : ops.Queue)
        → all_received es q ++ laws.items (queue_after es q) ≡ laws.items q ++ all_sent es
    unfolding seg_send
    received_lem [] q = sym (append-nil (laws.items q))
    received_lem (sends core b ∷ es) q =
        received_lem es (ops.push q (core, b))
        ∙ ap (λ l. l ++ all_sent es) (laws.push_last q (core, b))
        ∙ append_assoc (laws.items q) ((core, b) ∷ []) (all_sent es)
    received_lem (polls ∷ es) q =
        let (r, q') = seg_poll ops q in
        append_assoc (output_of r) (all_received es q') (laws.items (queue_after es q'))
        ∙ ap (λ l. output_of r ++ l) (received_lem es q')
        ∙ sym (append_assoc (output_of r) (laws.items q') (all_sent es))
        ∙ ap (λ l. l ++ all_sent es) (seg_poll_lem q)

    -- However the sends of any number of cores and the polls follow one another, of each core the values
    -- received, in order, and then those still in the queue are those that were in it and then all that
    -- this core has sent: none is lost, doubled or overtaken by another of the same core.
    pub core_deliveries :
        (es : List (Access B)) (q : ops.Queue) (c : ℕ)
        → from_core c (all_received es q) ++ from_core c (laws.items (queue_after es q))
          ≡ from_core c (laws.items q) ++ from_core c (all_sent es)
    core_deliveries es q c =
        sym (from_core-append c (all_received es q) (laws.items (queue_after es q)))
        ∙ ap (from_core c) (received_lem es q)
        ∙ from_core-append c (laws.items q) (all_sent es)
