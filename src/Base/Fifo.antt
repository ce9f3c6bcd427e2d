-- ===== src/Base/Fifo.antt =====
-- A queue of a library that the sources only call, first in first out, with a fixed capacity: its
-- operations, and what its documentation says of them.
pub mod Bounded
use uefi_async.Base.Lists.{length}
use uefi_async.Base.Polls.{Result, ok, err}
use Prim.Native.Nat.{ℕ, ◌<◌}
use mathlib.Core.Path.{◌≡◌}
use mathlib.Core.Option.{Option, none, some}
use mathlib.Core.List.{List, [], ◌∷◌, ◌++◌}

pub record FifoOps (A : Type 0) : Type 1 where
  pub Queue : Type 0
  pub push : Queue → A → Result A (Unit {0}) × Queue
  pub pop : Queue → Option A × Queue

pub record FifoLaws {A : Type 0} (ops : FifoOps A) : Type 0 where
  pub items : ops.Queue → List A
  pub capacity : ℕ
  pub push_room :
      (q : ops.Queue) (a : A)
      → length (items q) < capacity
      → ((ops.push q a).0 ≡ ok tt) × (items (ops.push q a).1 ≡ items q ++ a ∷ [])
  pub push_full :
      (q : ops.Queue) (a : A)
      → length (items q) ≡ capacity
      → ((ops.push q a).0 ≡ err a) × (items (ops.push q a).1 ≡ items q)
  pub pop_first :
      (q : ops.Queue) (a : A) (rest : List A)
      → items q ≡ a ∷ rest
      → ((ops.pop q).0 ≡ some a) × (items (ops.pop q).1 ≡ rest)
  pub pop_none :
      (q : ops.Queue) → items q ≡ [] → ((ops.pop q).0 ≡ none) × (items (ops.pop q).1 ≡ [])
