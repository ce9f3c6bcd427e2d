-- ===== src/Common/Mutex/Remaining.antt =====
-- The waiters that remain in the queue of async/src/common/mutex.rs after a node is taken out.
use uefi_async.Base.{
  ℕ, ◌≤◌, ◌≡◌, ◌≢◌, ◌∙◌, List, [], ◌∷◌, true, false, Option, none, some, arith, length, ◌==◌, All,
  Bool-cases, inl, inr,
}
use uefi_async.Common.Mutex.Nodups.{NotIn, Nodup}
use uefi_async.Common.Mutex.Unlink.{erase}
use uefi_async.Common.Mutex.Wakes.{wake_next}

pub All-map : (P Q : ℕ → Type 0) (xs : List ℕ) → ((y : ℕ) → P y → Q y) → All P xs → All Q xs
All-map P Q [] f h = tt
All-map P Q (x ∷ xs) f h = (f x h.0, All-map P Q xs f h.1)

pub All-zip :
    (P Q R : ℕ → Type 0) (xs : List ℕ)
    → ((y : ℕ) → P y → Q y → R y)
    → All P xs
    → All Q xs
    → All R xs
All-zip P Q R [] f h k = tt
All-zip P Q R (x ∷ xs) f h k = (f x h.0 k.0, All-zip P Q R xs f h.1 k.1)

pub All-erase : (P : ℕ → Type 0) (i : ℕ) (xs : List ℕ) → All P xs → All P (erase i xs)
unfolding erase
All-erase P i [] h = tt
All-erase P i (x ∷ xs) h = elim (Bool-cases (x == i)) [
  | inl e ↦ rw e (h.1)
  | inr e ↦ rw e (h.0, All-erase P i xs h.1)
]

pub erase-short : (i : ℕ) (xs : List ℕ) → length (erase i xs) ≤ length xs
unfolding erase
erase-short i [] = omega arith
erase-short i (x ∷ xs) = ground (arith, erase-short i xs)

pub erase-NotIn : (i : ℕ) (xs : List ℕ) → Nodup xs → NotIn i (erase i xs)
unfolding erase
erase-NotIn i [] d = tt
erase-NotIn i (x ∷ xs) d = elim (Bool-cases (x == i)) [
  | inl e ↦ rw e (All-map (λ y. y ≢ x) (λ y. y ≢ i) xs (λ y n k. n (k ∙ same e)) d.0)
  | inr e ↦ rw e (differ e, erase-NotIn i xs d.1)
]
  where
    same : ((x == i) ≡ true) → i ≡ x
    same e = ground arith

    differ : ((x == i) ≡ false) → x ≢ i
    differ e = ground arith

pub All-wake_next :
    (P : ℕ → Type 0) (ws : ℕ → Option ℕ) (xs : List ℕ) → All P xs → All P (wake_next ws xs).1
unfolding wake_next
All-wake_next P ws [] h = tt
All-wake_next P ws (x ∷ xs) h = go (All-wake_next P ws xs h.1) (ws x)
  where
    found : Option ℕ → Option (ℕ × ℕ) × List ℕ
    found o = elim o [ none ↦ wake_next ws xs | some w ↦ (some (x, w), xs) ]

    go : All P (wake_next ws xs).1 → (o : Option ℕ) → All P (found o).1
    go rest none = rest
    go rest (some w) = h.1

pub wake_next-short : (ws : ℕ → Option ℕ) (xs : List ℕ) → length (wake_next ws xs).1 ≤ length xs
unfolding wake_next
wake_next-short ws [] = omega arith
wake_next-short ws (x ∷ xs) = ground (arith, wake_next-short ws xs)
