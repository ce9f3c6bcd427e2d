-- ===== src/Common/Mutex/Segments.antt =====
-- Doubly linked segments in memory, for the queue of async/src/common/mutex.rs.
use uefi_async.Base.{ℕ, ◌<◌, ◌≡◌, ◌≢◌, refl, List, [], ◌∷◌, ◌++◌, arith, All, assign}
use uefi_async.Common.Mutex.{Waiter, with_next, with_prev}
use uefi_async.Common.Mutex.Nodups.{NotIn, Nodup}

-- From `p`, whose predecessor is `pr`, the links lead through the nodes `xs` to `q`.
abbrev pub Seg : (ℕ → Waiter) → ℕ → ℕ → List ℕ → ℕ → Type 0
Seg nodes pr p [] q = p ≡ q
Seg nodes pr p (x ∷ xs) q =
    (p ≡ x) × (0 < x) × ((nodes x).prev ≡ pr) × Seg nodes x (nodes x).next xs q

-- The last node, or the predecessor of all.
abbrev pub last : ℕ → List ℕ → ℕ
last pr [] = pr
last pr (x ∷ xs) = last x xs

-- Where a segment in front of these nodes ends.
abbrev pub first : List ℕ → ℕ → ℕ
first [] q = q
first (x ∷ xs) q = x

pub All_last : (P : ℕ → Type 0) (x : ℕ) (xs : List ℕ) → All P (x ∷ xs) → P (last x xs)
All_last P x [] h = h.0
All_last P x (y ∷ ys) h = All_last P y ys h.1

pub last-ne : (a pr : ℕ) (xs : List ℕ) → pr ≢ a → NotIn a xs → last pr xs ≢ a
last-ne a pr [] h k = h
last-ne a pr (x ∷ xs) h k = last-ne a x xs k.0 k.1

module _ (nodes : ℕ → Waiter) where
  -- A write elsewhere, or one that keeps the links.
  pub Seg-frame :
      (a : ℕ) (v : Waiter) (pr p : ℕ) (xs : List ℕ) (q : ℕ)
      → NotIn a xs
      → Seg nodes pr p xs q
      → Seg (assign nodes a v) pr p xs q
  Seg-frame a v pr p [] q out s = s
  Seg-frame a v pr p (x ∷ xs) q out s =
      let same : assign nodes a v x ≡ nodes x = ground arith in
      (s.0, s.1, rw same (s.2), rw same (Seg-frame a v x (nodes x).next xs q out.1 s.3))

  pub Seg-links :
      (a : ℕ) (v : Waiter) (pr p : ℕ) (xs : List ℕ) (q : ℕ)
      → v.next ≡ (nodes a).next
      → v.prev ≡ (nodes a).prev
      → Seg nodes pr p xs q
      → Seg (assign nodes a v) pr p xs q
  Seg-links a v pr p [] q n r s = s
  Seg-links a v pr p (x ∷ xs) q n r s =
      let same_next : (assign nodes a v x).next ≡ (nodes x).next = ground arith in
      let same_prev : (assign nodes a v x).prev ≡ (nodes x).prev = ground arith in
      (s.0, s.1, rw same_prev (s.2), rw same_next (Seg-links a v x (nodes x).next xs q n r s.3))

  pub Seg-append :
      (pr p : ℕ) (xs ys : List ℕ) (m q : ℕ)
      → Seg nodes pr p xs m
      → Seg nodes (last pr xs) m ys q
      → Seg nodes pr p (xs ++ ys) q
  Seg-append pr p [] ys m q s t = rw s t
  Seg-append pr p (x ∷ xs) ys m q s t = (s.0, s.1, s.2, Seg-append x (nodes x).next xs ys m q s.3 t)

  pub Seg-split :
      (pr p : ℕ) (xs ys : List ℕ) (q : ℕ)
      → Seg nodes pr p (xs ++ ys) q
      → (m : ℕ) × Seg nodes pr p xs m × Seg nodes (last pr xs) m ys q
  Seg-split pr p [] ys q s = (p, refl, s)
  Seg-split pr p (x ∷ xs) ys q s =
      let (m, t, u) = Seg-split x (nodes x).next xs ys q s.3 in (m, (s.0, s.1, s.2, t), u)

  -- The last node of a segment made to point elsewhere.
  pub Seg-with_next :
      (pr p x : ℕ) (xs : List ℕ) (q r : ℕ)
      → Nodup (x ∷ xs)
      → Seg nodes pr p (x ∷ xs) q
      → Seg (with_next nodes (last x xs) r) pr p (x ∷ xs) r
  Seg-with_next pr p x [] q r d s =
      let changed : with_next nodes x r x ≡ record (nodes x) { next = r } = ground arith in
      (s.0, s.1, rw changed (s.2), rw changed refl)
  Seg-with_next pr p x (y ∷ ys) q r d s =
      let same : with_next nodes (last y ys) r x ≡ nodes x =
        ground (arith, last-ne x y ys d.0.0 d.0.1) in
      (s.0, s.1, rw same (s.2), rw same (Seg-with_next x (nodes x).next y ys q r d.1 s.3))

  -- The first node given another predecessor.
  pub Seg-with_prev :
      (pr p x : ℕ) (xs : List ℕ) (q r : ℕ)
      → NotIn x xs
      → Seg nodes pr p (x ∷ xs) q
      → Seg (with_prev nodes x r) r p (x ∷ xs) q
  Seg-with_prev pr p x xs q r out s =
      let changed : with_prev nodes x r x ≡ record (nodes x) { prev = r } = ground arith in
      (
        s.0,
        s.1,
        rw changed refl,
        rw changed (Seg-frame x (record (nodes x) { prev = r }) x (nodes x).next xs q out s.3),
      )
