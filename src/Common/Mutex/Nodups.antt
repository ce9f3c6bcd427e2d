-- ===== src/Common/Mutex/Nodups.antt =====
-- Lists of nodes without duplicates, for async/src/common/mutex.rs.
use uefi_async.Base.{ℕ, ◌≢◌, sym, List, [], ◌∷◌, ◌++◌, All}

abbrev pub NotIn : ℕ → List ℕ → Type 0
NotIn a xs = All (λ y. y ≢ a) xs

abbrev pub Nodup : List ℕ → Type 0
Nodup [] = Unit
Nodup (x ∷ xs) = NotIn x xs × Nodup xs

pub NotIn-append : (a : ℕ) (xs ys : List ℕ) → NotIn a xs → NotIn a ys → NotIn a (xs ++ ys)
NotIn-append a [] ys h k = k
NotIn-append a (x ∷ xs) ys h k = (h.0, NotIn-append a xs ys h.1 k)

pub NotIn-split : (a : ℕ) (xs ys : List ℕ) → NotIn a (xs ++ ys) → NotIn a xs × NotIn a ys
NotIn-split a [] ys h = (tt, h)
NotIn-split a (x ∷ xs) ys h = let (k, l) = NotIn-split a xs ys h.1 in ((h.0, k), l)

-- No element of the first list is in the second.
abbrev pub Apart : List ℕ → List ℕ → Type 0
Apart xs ys = All (λ x. NotIn x ys) xs

pub Nodup-split : (xs ys : List ℕ) → Nodup (xs ++ ys) → Nodup xs × Apart xs ys × Nodup ys
Nodup-split [] ys d = (tt, tt, d)
Nodup-split (x ∷ xs) ys d =
    let (out, out') = NotIn-split x xs ys d.0 in
    let (dx, ap, dy) = Nodup-split xs ys d.1 in ((out, dx), (out', ap), dy)

pub Nodup-append : (xs ys : List ℕ) → Nodup xs → Apart xs ys → Nodup ys → Nodup (xs ++ ys)
Nodup-append [] ys dx ap dy = dy
Nodup-append (x ∷ xs) ys dx ap dy =
    (NotIn-append x xs ys dx.0 ap.0, Nodup-append xs ys dx.1 ap.1 dy)

pub Apart-cons : (xs : List ℕ) (y : ℕ) (ys : List ℕ) → Apart xs (y ∷ ys) → NotIn y xs × Apart xs ys
Apart-cons [] y ys ap = (tt, tt)
Apart-cons (x ∷ xs) y ys ap =
    let (out, rest) = Apart-cons xs y ys ap.1 in ((λ e. ap.0.0 (sym e), out), (ap.0.1, rest))

pub Apart-one : (xs : List ℕ) (y : ℕ) → NotIn y xs → Apart xs (y ∷ [])
Apart-one [] y out = tt
Apart-one (x ∷ xs) y out = ((λ e. out.0 (sym e), tt), Apart-one xs y out.1)
