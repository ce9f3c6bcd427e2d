-- ===== src/Macros/Polled.antt =====
-- The code that `join_all!` and `select!` (macros/src/nano.rs) generate, polled.
use uefi_async.Base.{
  ℕ, suc, max, ◌<◌, ◌≡◌, refl, subst, List, [], ◌∷◌, map, length, Option, some, All, leb,
  if◌then◌else◌, arith, Bool-cases, inl, inr,
}
use uefi_async.Common.Control.{
  JoinAll, Select, Either, left, right, join_all_poll, select_poll, new_join_all, new_select,
}
use uefi_async.Common.Control.JoinAlls.{join_all-Finishes}
use uefi_async.Common.Control.Selects.{select_outcome, select-Finishes}
use uefi_async.Macros.Futures.{Future, Ends, no_future, slowest, then_with, then_with-Ends}
use uefi_async.Macros.JoinAlls.{
  tree_of, outcome, bind, lookups_in, tuple_code, join_all_tuple, output-tuple_code,
}
use uefi_async.Macros.Selects.{first_fit, won, arm_taken, select_many}
use uefi_async.Macros.{
  Tree, leaf, node, Pattern, Value, plain, both, in_left, in_right, JoinAllCode, nothing, single,
  tuple, join_all, match_on, select, arms,
}

abbrev pair_value : {A : Type 0} → Value A × Value A → Value A
pair_value (v, w) = both v w

abbrev side_value : {A : Type 0} → Either (Value A) (Value A) → Value A
side_value (left v) = in_left v
side_value (right v) = in_right v

module _ {A B W : Type 0} where
  abbrev pub both_future : Future A W → Future B W → Future (A × B) W
  both_future head tail = record {
    State = JoinAll head.State tail.State A B;
    poll = join_all_poll head.poll tail.poll;
    start = new_join_all head.start tail.start;
  }

  both_future-Ends :
      (n m : ℕ) (a : A) (b : B) (head : Future A W) (tail : Future B W)
      → Ends n a head
      → Ends m b tail
      → Ends (max n m) (a, b) (both_future head tail)
  both_future-Ends n m a b head tail h t =
      join_all-Finishes head.poll tail.poll n m a b head.start tail.start h t

  abbrev pub either_future : Future A W → Future B W → Future (Either A B) W
  either_future head tail = record {
    State = Select head.State tail.State;
    poll = select_poll head.poll tail.poll;
    start = new_select head.start tail.start;
  }

  either_future-Ends :
      (n m : ℕ) (a : A) (b : B) (head : Future A W) (tail : Future B W)
      → Ends n a head
      → Ends m b tail
      → Ends (select_outcome n a m b).0 (select_outcome n a m b).1 (either_future head tail)
  either_future-Ends n m a b head tail h t =
      select-Finishes head.poll tail.poll n m a b head.start tail.start h t

-- The first future to be ready, with its place: the earliest at a tie.
abbrev pub fastest : {E : Type 0} → (E → ℕ) → E → List E → ℕ × E
fastest n x [] = (0, x)
fastest n x (y ∷ ys) = let (i, e) = fastest n y ys in if leb (n x) (n e) then (0, x) else (suc i, e)

fastest_inside :
    {E : Type 0} (n : E → ℕ) (x : E) (ys : List E) → (fastest n x ys).0 < suc (length ys)
fastest_inside n x [] = omega arith
fastest_inside n x (y ∷ ys) = ground (arith, fastest_inside n y ys)

-- What the first future to be ready makes of the tree.
abbrev winning : {E A : Type 0} → (E → ℕ) → (E → A) → E → List E → Value A
winning n out x ys = let (i, e) = fastest n x ys in won (tree_of x ys) i (plain (out e))

module _ {E A W : Type 0} where
  -- The future of a tree of `JoinAll`s.
  abbrev pub all_future : (E → Future A W) → Tree E → Future (Value A) W
  all_future future (leaf e) = then_with plain (future e)
  all_future future (node l r) =
      then_with pair_value (both_future (all_future future l) (all_future future r))

  -- The future of a tree of `Select`s.
  abbrev pub select_future : (E → Future A W) → Tree E → Future (Value A) W
  select_future future (leaf e) = then_with plain (future e)
  select_future future (node l r) =
      then_with side_value (either_future (select_future future l) (select_future future r))

  -- The future that `join_all!` makes: the components of its tuple, if the pattern fits.
  abbrev pub join_all_future : (E → Future A W) → JoinAllCode E → Future (Option (List (Value A))) W
  join_all_future future nothing = then_with (λ u. some []) no_future
  join_all_future future (single e) = then_with (λ a. some (plain a ∷ [])) (future e)
  join_all_future future (tuple tree pattern idents) =
      then_with (λ v. lookups_in idents (bind pattern v)) (all_future future tree)

  all_future-Ends :
      (future : E → Future A W) (n : E → ℕ) (out : E → A) (x : E) (ys : List E)
      → All (λ e. Ends (n e) (out e) (future e)) (x ∷ ys)
      → Ends (slowest n (x ∷ ys)) (outcome out (tree_of x ys)) (all_future future (tree_of x ys))
  all_future-Ends future n out x [] (h, rest) = then_with-Ends plain (n x) (out x) (future x) h
  all_future-Ends future n out x (y ∷ ys) (h, rest) =
      let tail = all_future future (tree_of y ys) in
      let v = outcome out (tree_of y ys) in
      then_with-Ends pair_value (slowest n (x ∷ y ∷ ys)) (plain (out x), v)
        (both_future (then_with plain (future x)) tail)
        (both_future-Ends (n x) (slowest n (y ∷ ys)) (plain (out x)) v (then_with plain (future x))
          tail (then_with-Ends plain (n x) (out x) (future x) h)
          (all_future-Ends future n out y ys rest))

  -- If each expression of a `join_all!` is a future that is ready with its output after some pending
  -- polls, the macro gives code, and its future is pending until the slowest of them is ready, and then
  -- ready with the outputs of all, each once and in the order in which they were written.
  pub join_all-Ends :
      (future : E → Future A W) (n : E → ℕ) (out : E → A) (exprs : List E)
      → All (λ e. Ends (n e) (out e) (future e)) exprs
      → (code : JoinAllCode E) × (join_all exprs ≡ some code)
        × Ends
            (slowest n exprs)
            (some (map (λ e. plain (out e)) exprs))
            (join_all_future future code)
  unfolding join_all
  join_all-Ends future n out [] h = (nothing, refl, λ w. refl)
  join_all-Ends future n out (x ∷ []) (h, rest) =
      (single x, refl, then_with-Ends (λ a. some (plain a ∷ [])) (n x) (out x) (future x) h)
  join_all-Ends future n out (x ∷ y ∷ ys) h =
      let code = tuple_code out x (y ∷ ys) in
      (
        code,
        join_all_tuple out x y ys,
        subst (λ o. Ends (slowest n (x ∷ y ∷ ys)) o (join_all_future future code))
            (output-tuple_code out x (y ∷ ys))
            (then_with-Ends _ (slowest n (x ∷ y ∷ ys)) _ (all_future future (tree_of x (y ∷ ys)))
              (all_future-Ends future n out x (y ∷ ys) h)),
      )

  select_future-Ends :
      (future : E → Future A W) (n : E → ℕ) (out : E → A) (x : E) (ys : List E)
      → All (λ e. Ends (n e) (out e) (future e)) (x ∷ ys)
      → Ends (n (fastest n x ys).1) (winning n out x ys) (select_future future (tree_of x ys))
  select_future-Ends future n out x [] (h, rest) = then_with-Ends plain (n x) (out x) (future x) h
  select_future-Ends future n out x (y ∷ ys) (h, rest) =
      let head = then_with plain (future x) in
      let tail = select_future future (tree_of y ys) in
      let m = n (fastest n y ys).1 in
      let v = winning n out y ys in
      let sides =
        either_future-Ends (n x) m (plain (out x)) v head tail
          (then_with-Ends plain (n x) (out x) (future x) h)
          (select_future-Ends future n out y ys rest) in
      elim (Bool-cases (leb (n x) m)) [
        | inl e ↦ rw e (
            then_with-Ends side_value (n x) (left (plain (out x))) (either_future head tail)
              (rw e at sides))
        | inr e ↦
            rw e (then_with-Ends side_value m (right v) (either_future head tail) (rw e at sides))
      ]

  -- If each branch of a `select!` with two branches or more is a future that is ready with its output
  -- after some pending polls, the macro gives code that matches a tree, whose future is pending until
  -- the fastest of them is ready (the first one written at a tie), and the arm that it then takes is
  -- that of this branch, with the output of its future.
  pub select-Ends :
      (future : E → Future A W) (n : E → ℕ) (out : E → A) (x y : E) (ys : List E)
      → All (λ e. Ends (n e) (out e) (future e)) (x ∷ y ∷ ys)
      → let (i, e) = fastest n x (y ∷ ys) in
        (tree : Tree E) × (arms_of : List Pattern) × (select (x ∷ y ∷ ys)
          ≡ some (match_on tree arms_of))
        × Ends
            (n e)
            (some (i, plain (out e)))
            (then_with (first_fit 0 arms_of) (select_future future tree))
  select-Ends future n out x y ys h =
      let (i, e) = fastest n x (y ∷ ys) in
      let count = length (x ∷ y ∷ ys) in
      let tree = tree_of x (y ∷ ys) in
      (
        tree,
        arms count 0 count,
        select_many x y ys,
        subst
            (λ o.
              Ends (n e) o
                (then_with (first_fit 0 (arms count 0 count)) (select_future future tree)))
            (arm_taken x y ys i (plain (out e)) (fastest_inside n x (y ∷ ys)))
            (then_with-Ends (first_fit 0 (arms count 0 count)) (n e) (winning n out x (y ∷ ys))
              (select_future future tree) (select_future-Ends future n out x (y ∷ ys) h)),
      )
