-- ===== src/Macros/Joins.antt =====
-- What the code that `join!` and `try_join!` (macros/src/nano.rs) generate does when it is polled.
use uefi_async.Base.{ℕ, ◌≡◌, refl, ap, List, [], ◌∷◌, true, false, Option, none, some, All}
use uefi_async.Common.Control.{Join, Tried, join_poll, try_join_poll}
use uefi_async.Common.Control.Joins.{new_join, join-Finishes}
use uefi_async.Common.Control.TryJoins.{try_outcome, try_join-Finishes}
use uefi_async.Macros.JoinAlls.{tree_of}
use uefi_async.Macros.Futures.{Future, Ends, no_future, slowest}
use uefi_async.Macros.{
  Tree, leaf, node, node_of, build_join_tree, JoinCode, empty, await, await_of, join,
}

build_join_tree_lem :
    {E : Type 0} (x : E) (ys : List E) → build_join_tree (x ∷ ys) ≡ some (tree_of x ys)
unfolding build_join_tree node_of
build_join_tree_lem x [] = refl
build_join_tree_lem x (y ∷ ys) = ap (node_of x) (build_join_tree_lem y ys)

-- When the futures of a `try_join!` are done together, and how.
abbrev pub outcomes : {E X : Type 0} → (E → ℕ × Tried X) → E → List E → ℕ × Tried X
outcomes outcome x [] = outcome x
outcomes outcome x (y ∷ ys) =
    try_outcome (outcome x).0 (outcome x).1 (outcomes outcome y ys).0 (outcomes outcome y ys).1

module _ {E W : Type 0} where
  -- The future of a tree of `Join`s.
  abbrev pub tree_future : (E → Future (Unit {0}) W) → Tree E → Future (Unit {0}) W
  tree_future future (leaf e) = future e
  tree_future future (node l r) =
      let head = tree_future future l in
      let tail = tree_future future r in
      record {
        State = Join head.State tail.State;
        poll = join_poll head.poll tail.poll;
        start = new_join head.start tail.start;
      }

  -- The future of a tree of `TryJoin`s.
  abbrev pub try_future : {X : Type 0} → (E → Future (Tried X) W) → Tree E → Future (Tried X) W
  try_future future (leaf e) = future e
  try_future future (node l r) =
      let head = try_future future l in
      let tail = try_future future r in
      record {
        State = Join head.State tail.State;
        poll = try_join_poll head.poll tail.poll;
        start = new_join head.start tail.start;
      }

  tree_future-Ends :
      (future : E → Future (Unit {0}) W) (n : E → ℕ) (x : E) (ys : List E)
      → All (λ e. Ends (n e) tt (future e)) (x ∷ ys)
      → Ends (slowest n (x ∷ ys)) tt (tree_future future (tree_of x ys))
  tree_future-Ends future n x [] (h, rest) = h
  tree_future-Ends future n x (y ∷ ys) (h, rest) =
      join-Finishes _ _ (n x) (slowest n (y ∷ ys)) _ _ h (tree_future-Ends future n y ys rest)

  -- The future that `join!` makes. Code of `TryJoin` nodes takes futures of results: it makes none of
  -- these.
  abbrev pub join_future : (E → Future (Unit {0}) W) → JoinCode E → Option (Future (Unit {0}) W)
  join_future future empty = some no_future
  join_future future (await false tree) = some (tree_future future tree)
  join_future future (await true tree) = none

  -- If each expression of a `join!` is a future that is ready after some pending polls, the macro gives
  -- code that makes a future of them, of `Join` nodes and not of `TryJoin` ones; and this future is
  -- pending until the slowest of them is ready, and then ready.
  pub join-Ends :
      (future : E → Future (Unit {0}) W) (n : E → ℕ) (exprs : List E)
      → All (λ e. Ends (n e) tt (future e)) exprs
      → (code : JoinCode E) × (joined : Future (Unit {0}) W) × (join exprs false ≡ some code)
        × (join_future future code ≡ some joined)
        × Ends (slowest n exprs) tt joined
  unfolding join await_of
  join-Ends future n [] h = (empty, no_future, refl, refl, λ w. refl)
  join-Ends future n (x ∷ ys) h = (
    await false (tree_of x ys),
    tree_future future (tree_of x ys),
    ap (await_of false) (build_join_tree_lem x ys),
    refl,
    tree_future-Ends future n x ys h,
  )

  try_future-Ends :
      {X : Type 0} (future : E → Future (Tried X) W) (outcome : E → ℕ × Tried X) (x : E)
      (ys : List E)
      → All (λ e. Ends (outcome e).0 (outcome e).1 (future e)) (x ∷ ys)
      → Ends (outcomes outcome x ys).0 (outcomes outcome x ys).1 (try_future future (tree_of x ys))
  try_future-Ends future outcome x [] (h, rest) = h
  try_future-Ends future outcome x (y ∷ ys) (h, rest) =
      try_join-Finishes _ _ _ _ _ _ _ _ h (try_future-Ends future outcome y ys rest)

  -- If each expression of a `try_join!` is a future that is ready with its result after some pending
  -- polls, the macro gives code of a tree, whose future is pending until the outcome of them all is
  -- settled, and then ready with it: the first error there is, or else success with the slowest.
  pub try_join-Ends :
      {X : Type 0} (future : E → Future (Tried X) W) (outcome : E → ℕ × Tried X) (x : E)
      (ys : List E)
      → All (λ e. Ends (outcome e).0 (outcome e).1 (future e)) (x ∷ ys)
      → (tree : Tree E) × (join (x ∷ ys) true ≡ some (await true tree))
        × Ends (outcomes outcome x ys).0 (outcomes outcome x ys).1 (try_future future tree)
  unfolding join await_of
  try_join-Ends future outcome x ys h = (
    tree_of x ys,
    ap (await_of true) (build_join_tree_lem x ys),
    try_future-Ends future outcome x ys h,
  )
