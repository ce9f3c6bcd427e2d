-- ===== src/Macros/Init/Checks.antt =====
-- Which modules the check of `init` (macros/src/lib.rs) lets pass, and how it refuses the others.
use Prim.Native.String.{String}
use text.Mathlib.Text.{◌==◌}
use text.Mathlib.TextEquality.{eq_iff}
use uefi_async.Base.{
  ℕ, zero, suc, ◌<◌, ◌≡◌, ◌⊎◌, ◌↔◌, inl, inr, refl, ap, ◌∙◌, subst, Bool, true, false, List, [],
  ◌∷◌, ◌++◌, map, Option, none, some, ok, err, All, Bool-cases, arith,
}
use uefi_async.Macros.Init.{
  Item, function, use_item, other, Refusal, no_body, not_allowed, must_be_async, must_not_be_async,
  has_inputs, not_an_item, given, entry_fn, allowed_functions, find, check_async, check_inputs,
  or_else, check_function, check_item, check_items, expand, init,
}

-- A function of this name may stand in the module, `async` or not.
abbrev pub Listed : String → Bool → List (String × Bool) → Type 0
Listed name is_async [] = ⊥
Listed name is_async ((n, a) ∷ rest) = ((n ≡ name) × (a ≡ is_async)) ⊎ Listed name is_async rest

abbrev pub Named : String → List (String × Bool) → Type 0
Named name l = (a : Bool) × Listed name a l

-- What may stand in the module.
abbrev pub Allowed : Item → Type 0
Allowed (function name is_async inputs) = Listed name is_async allowed_functions × (inputs ≡ 0)
Allowed use_item = Unit
Allowed other = ⊥

-- What is wrong with an item.
abbrev pub Wrong : Item → Refusal → Type 0
Wrong (function name is_async inputs) (not_allowed n) =
    (n ≡ name) × (Named name allowed_functions → ⊥)
Wrong (function name is_async inputs) (must_be_async n) =
    (n ≡ name) × Listed name true allowed_functions × (is_async ≡ false)
Wrong (function name is_async inputs) (must_not_be_async n) =
    (n ≡ name) × Listed name false allowed_functions × (is_async ≡ true)
Wrong (function name is_async inputs) (has_inputs n) =
    (n ≡ name) × Listed name is_async allowed_functions × (0 < inputs)
Wrong other not_an_item = Unit
Wrong item e = ⊥

find-Listed :
    (name : String) (l : List (String × Bool)) (a : Bool) → find name l ≡ some a → Listed name a l
unfolding find
find-Listed name [] a e = absurd (ground (arith, e))
find-Listed name ((n, b) ∷ rest) a e = elim (Bool-cases (n == name)) [
  | inl same ↦ inl ((eq_iff n name).0 same, cc (rw same at e))
  | inr differ ↦ inr (find-Listed name rest a (rw differ at e))
]

find-Named : (name : String) (l : List (String × Bool)) → find name l ≡ none → Named name l → ⊥
unfolding find
find-Named name [] e (a, h) = h
find-Named name ((n, b) ∷ rest) e (a, inl (same, _)) =
    absurd (ground (arith, rw ((eq_iff n name).1 same) at e))
find-Named name ((n, b) ∷ rest) e (a, inr h) = elim (Bool-cases (n == name)) [
  | inl same ↦ absurd (ground (arith, rw same at e))
  | inr differ ↦ find-Named name rest (rw differ at e) (a, h)
]

find_at :
    {name n : String} {a b : Bool}
    → n ≡ name
    → b ≡ a
    → find n allowed_functions ≡ some b
    → find name allowed_functions ≡ some a
find_at {a} e f found = subst (λ m. find m allowed_functions ≡ some a) e (found ∙ ap some f)

-- No name stands twice in the list, so that the first one found decides.
Listed-find :
    (name : String) (a : Bool)
    → Listed name a allowed_functions
    → find name allowed_functions ≡ some a
unfolding find
Listed-find name a (inl (e, f)) = find_at e f refl
Listed-find name a (inr (inl (e, f))) = find_at e f refl
Listed-find name a (inr (inr (inl (e, f)))) = find_at e f refl
Listed-find name a (inr (inr (inr (inl (e, f))))) = find_at e f refl
Listed-find name a (inr (inr (inr (inr (inl (e, f)))))) = find_at e f refl
Listed-find name a (inr (inr (inr (inr (inr (inl (e, f))))))) = find_at e f refl
Listed-find name a (inr (inr (inr (inr (inr (inr (inl (e, f)))))))) = find_at e f refl
Listed-find name a (inr (inr (inr (inr (inr (inr (inr h))))))) = absurd h

-- The check of one item either lets an allowed item pass or names what is wrong with it.
check_item_lem :
    (item : Item)
    → ((check_item item ≡ none) × Allowed item)
      ⊎ ((e : Refusal) × (check_item item ≡ some e) × Wrong item e)
unfolding check_item check_function check_async check_inputs or_else
check_item_lem use_item = inl (refl, tt)
check_item_lem other = inr (not_an_item, refl, tt)
check_item_lem (function name is_async inputs) =
    go (find name allowed_functions) refl is_async inputs
  where
    go :
        (o : Option Bool)
        → find name allowed_functions ≡ o
        → (is_async : Bool) (inputs : ℕ)
        → ((check_function name is_async inputs o ≡ none) × Allowed (function name is_async inputs))
          ⊎ ((e : Refusal) × (check_function name is_async inputs o ≡ some e)
              × Wrong (function name is_async inputs) e)
    go none e a n = inr (not_allowed name, refl, (refl, find-Named name allowed_functions e))
    go (some true) e false n =
        inr (must_be_async name, refl, (refl, find-Listed name allowed_functions true e, refl))
    go (some false) e true n =
        inr (must_not_be_async name, refl, (refl, find-Listed name allowed_functions false e, refl))
    go (some true) e true zero = inl (refl, (find-Listed name allowed_functions true e, refl))
    go (some false) e false zero = inl (refl, (find-Listed name allowed_functions false e, refl))
    go (some true) e true (suc n) =
        inr (has_inputs name, refl, (refl, find-Listed name allowed_functions true e, omega arith))
    go (some false) e false (suc n) =
        inr (has_inputs name, refl, (refl, find-Listed name allowed_functions false e, omega arith))

-- `items` up to the first item that is not allowed.
abbrev pub Refused : List Item → Refusal → Type 0
Refused items e =
    (front : List Item) × (bad : Item) × (back : List Item) × (items ≡ front ++ bad ∷ back)
    × All Allowed front
    × Wrong bad e

flags_agree :
    (name : String) (a b : Bool)
    → Listed name a allowed_functions
    → Listed name b allowed_functions
    → a ≡ b
flags_agree name a b h k = cc (Listed-find name a h, Listed-find name b k)

Wrong-Allowed : (item : Item) (e : Refusal) → Wrong item e → Allowed item → ⊥
Wrong-Allowed other e w h = h
Wrong-Allowed (function name a n) (not_allowed m) (_, unnamed) (listed, _) = unnamed (a, listed)
Wrong-Allowed (function name a n) (must_be_async m) (_, listed, is_async) (h, _) =
    absurd (ground (arith, flags_agree name true a listed h ∙ is_async))
Wrong-Allowed (function name a n) (must_not_be_async m) (_, listed, is_async) (h, _) =
    absurd (ground (arith, flags_agree name false a listed h ∙ is_async))
Wrong-Allowed (function name a n) (has_inputs m) (_, _, pos) (_, none_given) =
    omega (arith, pos, none_given)
Wrong-Allowed (function name a n) no_body w h = w
Wrong-Allowed (function name a n) not_an_item w h = w
Wrong-Allowed use_item no_body w h = w
Wrong-Allowed use_item (not_allowed m) w h = w
Wrong-Allowed use_item (must_be_async m) w h = w
Wrong-Allowed use_item (must_not_be_async m) w h = w
Wrong-Allowed use_item (has_inputs m) w h = w
Wrong-Allowed use_item not_an_item w h = w

Refused-Allowed :
    (front : List Item) (bad : Item) (back : List Item) (e : Refusal)
    → Wrong bad e
    → All Allowed (front ++ bad ∷ back)
    → ⊥
Refused-Allowed [] bad back e w (h, _) = Wrong-Allowed bad e w h
Refused-Allowed (item ∷ front) bad back e w (_, h) = Refused-Allowed front bad back e w h

Refused-cons :
    (item : Item) (items : List Item) (e : Refusal)
    → Allowed item
    → Refused items e
    → Refused (item ∷ items) e
Refused-cons item items e h (front, bad, back, p, hs, w) =
    (item ∷ front, bad, back, ap (λ l. item ∷ l) p, (h, hs), w)

check_items_lem :
    (items : List Item)
    → ((check_items items ≡ none) × All Allowed items)
      ⊎ ((e : Refusal) × (check_items items ≡ some e) × Refused items e)
unfolding check_items or_else
check_items_lem [] = inl (refl, tt)
check_items_lem (item ∷ items) =
    let rest = check_items_lem items in
    elim (check_item_lem item) [
      | inl (e, h) ↦ elim rest [
        | inl (f, hs) ↦ inl (rw (e, f), (h, hs))
        | inr (why, f, r) ↦ inr (why, rw (e, f), Refused-cons item items why h r)
      ]
      | inr (why, e, w) ↦ inr (why, rw e, ([], item, items, refl, tt, w))
    ]

-- `init` expands a module to its items with the entry point behind them exactly if all of them are
-- `use` items or functions from the list, `async` as the list says and without inputs; and if it
-- refuses the module, then with what is wrong with the first item that is not so.
pub init_iff :
    (items : List Item)
    → ((init (some items) ≡ ok (map given items ++ entry_fn ∷ [])) ↔ All Allowed items)
      × ((e : Refusal) → init (some items) ≡ err e → Refused items e)
unfolding init expand
init_iff items = elim (check_items_lem items) [
  | inl (e, h) ↦ ((λ same. h, λ hs. rw e), λ why refused. absurd (ground (arith, rw e at refused)))
  | inr (why, e, (front, bad, back, p, hs, w)) ↦ (
    (
      λ same. absurd (ground (arith, rw e at same)),
      λ all. absurd (Refused-Allowed front bad back why w (subst (All Allowed) p all)),
    ),
    λ why' refused. subst (Refused items) (cc (rw e at refused)) (front, bad, back, p, hs, w),
  )
]
