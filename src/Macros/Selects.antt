-- ===== src/Macros/Selects.antt =====
-- Which arm of the code that `select!` (macros/src/nano.rs) generates is taken.
use native.Mathlib.Decide.{dec_lt}
use uefi_async.Base.{
  ℕ, zero, suc, ◌+◌, ◌-◌, ◌<◌, ◌≤◌, ◌≡◌, ◌↔◌, refl, ap, ◌∙◌, subst, List, [], ◌∷◌, Option, none,
  some, arith, length,
}
use uefi_async.Macros.{
  Tree, leaf, node, Pattern, res, val, pair, at_left, at_right, Value, plain, both, in_left,
  in_right, build_tree, node_of, rights, arm, arms, match_on, match_of, select,
}
use uefi_async.Macros.JoinAlls.{tree_of, build_tree_lem}

arm-inner : (count i : ℕ) → suc i < count → arm count i ≡ rights i (at_left val)
unfolding arm
arm-inner count i lt = ground arith

arm-last : (i : ℕ) → arm (suc i) i ≡ rights i val
unfolding arm
arm-last i = ground arith

module _ {A : Type 0} where
  -- What matching a value with the pattern of an arm binds to `val`, if it fits.
  abbrev pub fit : Pattern → Value A → Option (Value A)
  fit (res i) v = none
  fit val v = some v
  fit (pair p q) v = none
  fit (at_left p) (plain a) = none
  fit (at_left p) (both v w) = none
  fit (at_left p) (in_left v) = fit p v
  fit (at_left p) (in_right v) = none
  fit (at_right p) (plain a) = none
  fit (at_right p) (both v w) = none
  fit (at_right p) (in_left v) = none
  fit (at_right p) (in_right v) = fit p v

  -- The first arm that fits, counted from `i`, and what it binds.
  abbrev pub first_fit : ℕ → List Pattern → Value A → Option (ℕ × Value A)
  first_fit i [] v = none
  first_fit i (p ∷ ps) v =
      let rest = first_fit (suc i) ps v in elim (fit p v) [ some w ↦ some (i, w) | none ↦ rest ]

  abbrev into_right : ℕ → Value A → Value A
  into_right zero v = v
  into_right (suc n) v = in_right (into_right n v)

  fit-rights : (n : ℕ) (p : Pattern) (v : Value A) → fit (rights n p) (into_right n v) ≡ fit p v
  unfolding rights
  fit-rights zero p v = refl
  fit-rights (suc n) p v = fit-rights n p v

  into_right_add : (m n : ℕ) (v : Value A) → into_right (m + n) v ≡ into_right m (into_right n v)
  into_right_add zero n v = ap (λ k. into_right k v) {x = 0 + n} {y = n} (omega arith)
  into_right_add (suc m) n v =
      ap (λ k. into_right k v) {x = suc m + n} {y = suc (m + n)} (omega arith)
      ∙ ap (λ (w : Value A). in_right w) (into_right_add m n v)

  -- An arm before the last passes over a value further to the right.
  fit-later : (j i : ℕ) (v : Value A) → j < i → fit (rights j (at_left val)) (into_right i v) ≡ none
  fit-later j i v lt =
      ap (λ k. fit (rights j (at_left val)) (into_right k v)) {x = i} {y = j + suc (i - j - 1)}
        (omega arith)
      ∙ ap (fit (rights j (at_left val))) (into_right_add j (suc (i - j - 1)) v)
      ∙ fit-rights j (at_left val) (into_right (suc (i - j - 1)) v)

  -- The output of a tree of `Select` in which the future number `i` is the first to be ready.
  abbrev pub won : {E : Type 0} → Tree E → ℕ → Value A → Value A
  won (leaf e) i v = v
  won (node head tail) zero v = in_left v
  won (node head tail) (suc i) v = in_right (won tail i v)

  module _ {E : Type 0} where
    won-inner :
        (x : E) (ys : List E) (i : ℕ) (v : Value A)
        → i < length ys
        → won (tree_of x ys) i v ≡ into_right i (in_left v)
    won-inner x [] i v lt = absurd (omega arith)
    won-inner x (y ∷ ys) zero v lt = refl
    won-inner x (y ∷ ys) (suc i) v lt =
        ap (λ (w : Value A). in_right w) (won-inner y ys i v (omega arith))

    won-last :
        (x : E) (ys : List E) (v : Value A)
        → won (tree_of x ys) (length ys) v ≡ into_right (length ys) v
    won-last x [] v = refl
    won-last x (y ∷ ys) v = ap (λ (w : Value A). in_right w) (won-last y ys v)

  first_fit-pass :
      (j n count : ℕ) (v : Value A)
      → fit (arm count j) v ≡ none
      → first_fit j (arms count j (suc n)) v ≡ first_fit (suc j) (arms count (suc j) n) v
  unfolding arms
  first_fit-pass j n count v e = ground (arith, e)

  first_fit-here :
      (j n count : ℕ) (v w : Value A)
      → fit (arm count j) v ≡ some w
      → first_fit j (arms count j (suc n)) v ≡ some (j, w)
  unfolding arms
  first_fit-here j n count v w e = ground (arith, e)

  -- From arm `j` on, when the arms from `j` to `i` are all there.
  first_fit-arms :
      (d j i n count : ℕ) (v w : Value A)
      → j + d ≡ i
      → d < n
      → i < count
      → ((m : ℕ) → m < i → fit (arm count m) v ≡ none)
      → fit (arm count i) v ≡ some w
      → first_fit j (arms count j n) v ≡ some (i, w)
  first_fit-arms d j i zero count v w e lt small pass here = absurd (omega arith)
  first_fit-arms zero j i (suc n) count v w e lt small pass here =
      let same : j ≡ i = omega arith in
      first_fit-here j n count v w (ap (λ m. fit (arm count m) v) same ∙ here)
      ∙ ap (λ m. some (m, w)) same
  first_fit-arms (suc d) j i (suc n) count v w e lt small pass here =
      first_fit-pass j n count v (pass j (omega arith))
      ∙ first_fit-arms d (suc j) i n count v w (omega arith) (omega arith) small pass here

  module _ {E : Type 0} (x : E) (ys : List E) (v : Value A) where
    inner-passed :
        (m i : ℕ) → m < i → i ≤ length ys → fit (arm (suc (length ys)) m) (into_right i v) ≡ none
    inner-passed m i lt le =
        ap (λ p. fit p (into_right i v)) (arm-inner (suc (length ys)) m (omega arith))
        ∙ fit-later m i v lt

    taken_inner :
        (i : ℕ)
        → i < length ys
        → first_fit 0 (arms (suc (length ys)) 0 (suc (length ys))) (won (tree_of x ys) i v)
          ≡ some (i, v)
    taken_inner i lt = rw (won-inner x ys i v lt) (
        first_fit-arms i 0 i (suc (length ys)) (suc (length ys)) (into_right i (in_left v)) v
          (omega arith) (omega arith) (omega arith)
          (λ m less.
            ap (λ p. fit p (into_right i (in_left v))) (arm-inner (suc (length ys)) m (omega arith))
            ∙ fit-later m i (in_left v) less)
          (ap (λ p. fit p (into_right i (in_left v))) (arm-inner (suc (length ys)) i (omega arith))
            ∙ fit-rights i (at_left val) (in_left v)))

    taken_last :
        first_fit 0 (arms (suc (length ys)) 0 (suc (length ys))) (won (tree_of x ys) (length ys) v)
        ≡ some (length ys, v)
    taken_last = rw (won-last x ys v) (
        first_fit-arms (length ys) 0 (length ys) (suc (length ys)) (suc (length ys))
          (into_right (length ys) v) v (omega arith) (omega arith) (omega arith)
          (λ m lt. inner-passed m (length ys) lt (omega arith))
          (ap (λ p. fit p (into_right (length ys) v)) (arm-last (length ys))
            ∙ fit-rights (length ys) val v))

module _ {E : Type 0} where
  pub select_many :
      (f g : E) (exprs : List E)
      → let count = length (f ∷ g ∷ exprs) in
        select (f ∷ g ∷ exprs) ≡ some (match_on (tree_of f (g ∷ exprs)) (arms count 0 count))
  unfolding select match_of
  select_many f g exprs = ap (match_of (length (f ∷ g ∷ exprs))) (build_tree_lem f g exprs)

  -- The arm of branch `i` is the first to fit the output of the tree when its future is the first.
  pub arm_taken :
      {A : Type 0} (f g : E) (exprs : List E) (i : ℕ) (output : Value A)
      → i < length (f ∷ g ∷ exprs)
      → let count = length (f ∷ g ∷ exprs) in
        first_fit 0 (arms count 0 count) (won (tree_of f (g ∷ exprs)) i output) ≡ some (i, output)
  arm_taken f g exprs i output lt =
      let count = length (f ∷ g ∷ exprs) in
      elim (dec_lt i (length (g ∷ exprs))) [
        | yes inner ↦ taken_inner f (g ∷ exprs) output i inner
        | no last ↦
            let same : length (g ∷ exprs) ≡ i = omega arith in
            subst
              (λ j.
                first_fit 0 (arms count 0 count) (won (tree_of f (g ∷ exprs)) j output)
                ≡ some (j, output))
              same (taken_last f (g ∷ exprs) output)
      ]

  -- `select!` with two branches or more generates code that runs the block of branch `i`, and binds
  -- its variable to the output, when the future of branch `i` is the first to be ready.
  select_lem :
      {A : Type 0} (f g : E) (exprs : List E) (i : ℕ) (output : Value A)
      → i < length (f ∷ g ∷ exprs)
      → (tree : Tree E) × (arms_of : List Pattern) × (select (f ∷ g ∷ exprs)
          ≡ some (match_on tree arms_of))
        × (first_fit 0 arms_of (won tree i output) ≡ some (i, output))
  select_lem f g exprs i output lt =
      let count = length (f ∷ g ∷ exprs) in
      (
        tree_of f (g ∷ exprs),
        arms count 0 count,
        select_many f g exprs,
        arm_taken f g exprs i output lt,
      )

  -- The macro panics exactly for one branch.
  select_panics : (exprs : List E) → (select exprs ≡ none) ↔ (length exprs ≡ 1)
  unfolding select match_of build_tree node_of
  select_panics [] = ((λ e. absurd (ground (arith, e))), (λ e. absurd (omega arith)))
  select_panics (f ∷ []) = ((λ e. refl), (λ e. refl))
  select_panics (f ∷ g ∷ exprs) =
      ((λ e. absurd (ground (arith, e, select_many f g exprs))), (λ e. absurd (omega arith)))
