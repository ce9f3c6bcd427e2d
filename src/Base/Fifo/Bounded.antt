-- ===== src/Base/Fifo/Bounded.antt =====
-- Lists of at most `cap` items as an instance of `Base.Fifo`.
use uefi_async.Base.Tests.{ltb, if◌then◌else◌}
use uefi_async.Base.Lists.{length}
use uefi_async.Base.Polls.{ok, err}
use uefi_async.Base.Fifo.{FifoOps, FifoLaws}
use Prim.Native.Nat.{ℕ, ◌<◌}
use native.Mathlib.Omega.{arith}
use mathlib.Core.Path.{◌≡◌, refl}
use mathlib.Core.Option.{Option, none, some}
use mathlib.Core.List.{List, [], ◌∷◌, ◌++◌}

module _ {A : Type 0} where
  abbrev pub pop_front : List A → Option A × List A
  pop_front [] = (none, [])
  pop_front (x ∷ xs) = (some x, xs)

  abbrev pub list_ops : ℕ → FifoOps A
  list_ops cap = record {
    Queue = List A;
    push = λ q a. if ltb (length q) cap then (ok tt, q ++ a ∷ []) else (err a, q);
    pop = pop_front;
  }

  pub push_room :
      (cap : ℕ) (q : List A) (a : A)
      → length q < cap
      → (((list_ops cap).push q a).0 ≡ ok tt) × (((list_ops cap).push q a).1 ≡ q ++ a ∷ [])
  push_room cap q a h = ground arith

  pub push_full :
      (cap : ℕ) (q : List A) (a : A)
      → length q ≡ cap
      → (((list_ops cap).push q a).0 ≡ err a) × (((list_ops cap).push q a).1 ≡ q)
  push_full cap q a h = ground arith

  unfoldable pub list_laws : (cap : ℕ) → FifoLaws (list_ops cap)
  list_laws cap = record {
    items = λ q. q;
    capacity = cap;
    push_room = push_room cap;
    push_full = push_full cap;
    pop_first = λ q a rest e. rw e (refl, refl);
    pop_none = λ q e. rw e (refl, refl);
  }
