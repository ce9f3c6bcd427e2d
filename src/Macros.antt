-- ===== src/Macros.antt =====
-- macros/src/nano.rs: the trees and patterns that `join!`, `try_join!`, `join_all!` and `select!` generate.
-- An expression of the caller is a value of the type `E`, and generated code is a data type. What it
-- does when it is polled is said of the futures that Joins and Polled make of it from the futures of its
-- expressions, with the poll functions of Common.Control. A branch of `select!` is known by its number.
pub mod Futures
pub mod Polled
pub mod Joins
pub mod Nano
pub mod Init
pub mod JoinAlls
pub mod Selects
mod Tests
use uefi_async.Base.{
  ℕ, zero, suc, ◌-◌, List, [], ◌∷◌, Option, none, some, Bool, true, false, ◌==◌, if◌then◌else◌,
  length,
}

-- A tree of futures: each node is of the same type, `Join`, `TryJoin`, `JoinAll` or `Select`.
pub data Tree (E : Type 0) : Type 0 where
  leaf : E → Tree E
  node : Tree E → Tree E → Tree E

-- `__res_i`, tuple patterns, and the patterns of `Either`; `val` is the variable of a branch.
pub data Pattern : Type 0 where
  res : ℕ → Pattern
  val : Pattern
  pair : Pattern → Pattern → Pattern
  at_left : Pattern → Pattern
  at_right : Pattern → Pattern

pub data Value (A : Type 0) : Type 0 where
  plain : A → Value A
  both : Value A → Value A → Value A
  in_left : Value A → Value A
  in_right : Value A → Value A

module _ {E : Type 0} where
  unfoldable pub node_of : E → Option (Tree E) → Option (Tree E)
  node_of head none = none
  node_of head (some tail) = some (node (leaf head) tail)

  -- `join::build_join_all_tree` and `select::build_select_tree`, which differ in the type of the nodes
  -- only; `none` is the panic of the index on no expression.
  unfoldable pub build_tree : List E → Option (Tree E)
  build_tree [] = none
  build_tree (head ∷ []) = node_of head (build_tree [])
  build_tree (head ∷ tail ∷ []) = some (node (leaf head) (leaf tail))
  build_tree (head ∷ x ∷ y ∷ exprs) = node_of head (build_tree (x ∷ y ∷ exprs))

  -- `join::build_join_tree`, whose flag decides the type of the nodes only; `none` is its panic on no
  -- expression.
  unfoldable pub build_join_tree : List E → Option (Tree E)
  build_join_tree [] = none
  build_join_tree (last ∷ []) = some (leaf last)
  build_join_tree (head ∷ x ∷ exprs) = node_of head (build_join_tree (x ∷ exprs))

-- What `join!` and `try_join!` expand to: `async {}`, or a tree awaited, of nodes `TryJoin` if the flag
-- is set and else `Join`.
pub data JoinCode (E : Type 0) : Type 0 where
  empty : JoinCode E
  await : Bool → Tree E → JoinCode E

unfoldable pub await_of : {E : Type 0} → Bool → Option (Tree E) → Option (JoinCode E)
await_of is_try none = none
await_of is_try (some tree) = some (await is_try tree)

-- `join::join`
unfoldable pub join : {E : Type 0} → List E → Bool → Option (JoinCode E)
join [] is_try = some empty
join (f ∷ exprs) is_try = await_of is_try (build_join_tree (f ∷ exprs))

-- The second loop of `join_all`, for `i` from `n - 1` down to 0.
unfoldable pub wrap_pattern : ℕ → Pattern → Pattern
wrap_pattern zero pattern = pattern
wrap_pattern (suc i) pattern = wrap_pattern i (pair (res i) pattern)

-- `__res_0` to `__res_(n - 1)` from `i` on.
unfoldable pub res_idents : ℕ → ℕ → List ℕ
res_idents i zero = []
res_idents i (suc n) = i ∷ res_idents (suc i) n

-- What `join_all!` expands to: `async {}`, the one future awaited, or the tree with the pattern that
-- its output is matched with and the identifiers of the tuple that is returned.
pub data JoinAllCode (E : Type 0) : Type 0 where
  nothing : JoinAllCode E
  single : E → JoinAllCode E
  tuple : Tree E → Pattern → List ℕ → JoinAllCode E

unfoldable pub tuple_of : {E : Type 0} → ℕ → Option (Tree E) → Option (JoinAllCode E)
tuple_of count none = none
tuple_of count (some tree) =
    some (tuple tree (wrap_pattern (count - 1) (res (count - 1))) (res_idents 0 count))

-- `join::join_all`
unfoldable pub join_all : {E : Type 0} → List E → Option (JoinAllCode E)
join_all [] = some nothing
join_all (f ∷ []) = some (single f)
join_all (f ∷ g ∷ exprs) = tuple_of (length (f ∷ g ∷ exprs)) (build_tree (f ∷ g ∷ exprs))

-- The inner loops of `select`: a pattern under `n` times `Either::Right`.
unfoldable pub rights : ℕ → Pattern → Pattern
rights zero pattern = pattern
rights (suc n) pattern = at_right (rights n pattern)

-- The pattern of the arm of branch `i` of `count`.
unfoldable pub arm : ℕ → ℕ → Pattern
arm count i = if i == count - 1 then rights i val else rights i (at_left val)

-- The arms from branch `i` on, `n` of them.
unfoldable pub arms : ℕ → ℕ → ℕ → List Pattern
arms count i zero = []
arms count i (suc n) = arm count i ∷ arms count (suc i) n

-- What `select!` expands to: `pending().await`, or the tree with the patterns of its arms.
pub data SelectCode (E : Type 0) : Type 0 where
  never : SelectCode E
  match_on : Tree E → List Pattern → SelectCode E

unfoldable pub match_of : {E : Type 0} → ℕ → Option (Tree E) → Option (SelectCode E)
match_of count none = none
match_of count (some tree) = some (match_on tree (arms count 0 count))

-- `select::select`
unfoldable pub select : {E : Type 0} → List E → Option (SelectCode E)
select [] = some never
select (f ∷ exprs) = match_of (length (f ∷ exprs)) (build_tree (f ∷ exprs))
