-- ===== src/Macros/JoinAlls.antt =====
-- What the code that `join_all!` (macros/src/nano.rs) generates returns.
use uefi_async.Base.{
  ℕ, zero, suc, ◌+◌, ◌-◌, ◌<◌, ◌≡◌, refl, ap, ◌∙◌, List, [], ◌∷◌, ◌++◌, map, Option, none, some,
  arith, length, ◌==◌, true, false, if◌then◌else◌,
}
use uefi_async.Macros.{
  Tree, leaf, node, Pattern, res, val, pair, at_left, at_right, Value, plain, both, in_left,
  in_right, node_of, build_tree, wrap_pattern, res_idents, JoinAllCode, nothing, single, tuple,
  tuple_of, join_all,
}

-- The tree that the expressions make.
abbrev pub tree_of : {E : Type 0} → E → List E → Tree E
tree_of x [] = leaf x
tree_of x (y ∷ ys) = node (leaf x) (tree_of y ys)

pub build_tree_lem :
    {E : Type 0} (x y : E) (ys : List E) → build_tree (x ∷ y ∷ ys) ≡ some (tree_of x (y ∷ ys))
unfolding build_tree node_of
build_tree_lem x y [] = refl
build_tree_lem x y (z ∷ zs) = ap (node_of x) (build_tree_lem y z zs)

-- The pattern of the results from number `i` on, with `last` behind `n` of them.
abbrev prefix : ℕ → ℕ → Pattern → Pattern
prefix i zero last = last
prefix i (suc n) last = pair (res i) (prefix (suc i) n last)

prefix_last :
    (i n : ℕ) (last : Pattern) → prefix i n (pair (res (i + n)) last) ≡ prefix i (suc n) last
prefix_last i zero last = ap (λ j. pair (res j) last) {x = i + 0} {y = i} (omega arith)
prefix_last i (suc n) last =
    ap (λ j. pair (res i) (prefix (suc i) n (pair (res j) last))) {x = i + suc n} {y = suc i + n}
      (omega arith)
    ∙ ap (pair (res i)) (prefix_last (suc i) n last)

wrap_pattern_lem : (n : ℕ) (last : Pattern) → wrap_pattern n last ≡ prefix 0 n last
unfolding wrap_pattern
wrap_pattern_lem zero last = refl
wrap_pattern_lem (suc n) last =
    wrap_pattern_lem n (pair (res n) last)
    ∙ ap (λ j. prefix 0 n (pair (res j) last)) {x = n} {y = 0 + n} (omega arith)
    ∙ prefix_last 0 n last

module _ {A : Type 0} where
  abbrev joined :
      Option (List (ℕ × Value A)) → Option (List (ℕ × Value A)) → Option (List (ℕ × Value A))
  joined none o = none
  joined (some b) none = none
  joined (some b) (some c) = some (b ++ c)

  -- What a pattern of tuples binds in a value.
  abbrev pub bind : Pattern → Value A → Option (List (ℕ × Value A))
  bind (res i) v = some ((i, v) ∷ [])
  bind val v = none
  bind (pair p q) (plain a) = none
  bind (pair p q) (both v w) = joined (bind p v) (bind q w)
  bind (pair p q) (in_left v) = none
  bind (pair p q) (in_right v) = none
  bind (at_left p) v = none
  bind (at_right p) v = none

  abbrev pub lookup : ℕ → List (ℕ × Value A) → Option (Value A)
  lookup i [] = none
  lookup i ((j, v) ∷ rest) = let found = lookup i rest in if i == j then some v else found

  abbrev cons_found : Option (Value A) → Option (List (Value A)) → Option (List (Value A))
  cons_found none o = none
  cons_found (some v) none = none
  cons_found (some v) (some vs) = some (v ∷ vs)

  abbrev pub lookups : List ℕ → List (ℕ × Value A) → Option (List (Value A))
  lookups [] env = some []
  lookups (i ∷ is) env = cons_found (lookup i env) (lookups is env)

  abbrev pub lookups_in : List ℕ → Option (List (ℕ × Value A)) → Option (List (Value A))
  lookups_in is none = none
  lookups_in is (some env) = lookups is env

module _ {E A : Type 0} (out : E → A) where
  -- What a tree of `JoinAll` gives when each future gives its output.
  abbrev pub outcome : Tree E → Value A
  outcome (leaf e) = plain (out e)
  outcome (node head tail) = both (outcome head) (outcome tail)

  -- What the generated code returns, as the list of the components of its tuple.
  abbrev pub output : JoinAllCode E → Option (List (Value A))
  output nothing = some []
  output (single e) = some (plain (out e) ∷ [])
  output (tuple tree pattern idents) = lookups_in idents (bind pattern (outcome tree))

  abbrev numbered : ℕ → List E → List (ℕ × Value A)
  numbered i [] = []
  numbered i (x ∷ xs) = (i, plain (out x)) ∷ numbered (suc i) xs

  bind-prefix :
      (i : ℕ) (x : E) (xs : List E)
      → bind (prefix i (length xs) (res (i + length xs))) (outcome (tree_of x xs))
        ≡ some (numbered i (x ∷ xs))
  bind-prefix i x [] = ap (λ j. some ((j, plain (out x)) ∷ [])) {x = i + 0} {y = i} (omega arith)
  bind-prefix i x (y ∷ ys) =
      ap (λ j. bind (prefix i (suc (length ys)) (res j)) (outcome (tree_of x (y ∷ ys))))
        {x = i + suc (length ys)} {y = suc i + length ys} (omega arith)
      ∙ ap (joined (some ((i, plain (out x)) ∷ []))) (bind-prefix (suc i) y ys)

  lookups-pass :
      (i j n : ℕ) (v : Value A) (env : List (ℕ × Value A))
      → j < i
      → lookups (res_idents i n) ((j, v) ∷ env) ≡ lookups (res_idents i n) env
  unfolding res_idents
  lookups-pass i j zero v env lt = refl
  lookups-pass i j (suc n) v env lt =
      let other : (i == j) ≡ false = ground arith in
      rw other (ap (cons_found (lookup i env)) (lookups-pass (suc i) j n v env (omega arith)))

  lookups-numbered :
      (i : ℕ) (xs : List E)
      → lookups (res_idents i (length xs)) (numbered i xs) ≡ some (map (λ e. plain (out e)) xs)
  unfolding res_idents
  lookups-numbered i [] = refl
  lookups-numbered i (x ∷ xs) =
      let same : (i == i) ≡ true = ground arith in
      rw same (
        ap (cons_found (some (plain (out x)))) (
          lookups-pass (suc i) i (length xs) (plain (out x)) (numbered (suc i) xs) (omega arith)
          ∙ lookups-numbered (suc i) xs))

  -- The code of two futures or more.
  abbrev pub tuple_code : E → List E → JoinAllCode E
  tuple_code f exprs =
      tuple (tree_of f exprs) (wrap_pattern (length exprs) (res (length exprs)))
        (res_idents 0 (length (f ∷ exprs)))

  pub join_all_tuple :
      (f g : E) (exprs : List E) → join_all (f ∷ g ∷ exprs) ≡ some (tuple_code f (g ∷ exprs))
  unfolding join_all tuple_of
  join_all_tuple f g exprs =
      let n = length (g ∷ exprs) in
      ap (tuple_of (suc n)) (build_tree_lem f g exprs)
      ∙ ap
          (λ m.
            some (tuple (tree_of f (g ∷ exprs)) (wrap_pattern m (res m)) (res_idents 0 (suc n))))
          {x = suc n - 1} {y = n} (omega arith)

  pub output-tuple_code :
      (f : E) (exprs : List E)
      → output (tuple_code f exprs) ≡ some (map (λ e. plain (out e)) (f ∷ exprs))
  output-tuple_code f exprs =
      let n = length exprs in
      let idents = res_idents 0 (suc n) in
      ap (λ p. lookups_in idents (bind p (outcome (tree_of f exprs)))) (wrap_pattern_lem n (res n))
      ∙ ap (λ j. lookups_in idents (bind (prefix 0 n (res j)) (outcome (tree_of f exprs)))) {x = n}
          {y = 0 + n} (omega arith)
      ∙ ap (lookups_in idents) (bind-prefix 0 f exprs)
      ∙ lookups-numbered 0 (f ∷ exprs)

  -- For any number of futures `join_all!` generates code whose result has as its components the
  -- outputs of the futures, each once and in the order in which they were written.
  join_all_lem :
      (exprs : List E)
      → (code : JoinAllCode E) × (join_all exprs ≡ some code)
        × (output code ≡ some (map (λ e. plain (out e)) exprs))
  unfolding join_all
  join_all_lem [] = (nothing, refl, refl)
  join_all_lem (f ∷ []) = (single f, refl, refl)
  join_all_lem (f ∷ g ∷ exprs) =
      (tuple_code f (g ∷ exprs), join_all_tuple f g exprs, output-tuple_code f (g ∷ exprs))
