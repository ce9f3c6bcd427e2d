-- ===== src/Common/Mutex/Unlink.antt =====
-- `unlink` of async/src/common/mutex.rs: the walk to the node, and the node taken out.
use uefi_async.Base.{
  ℕ, zero, suc, ◌<◌, ◌≡◌, ◌⊎◌, inl, inr, refl, ap, subst, List, [], ◌∷◌, ◌++◌, some, arith, length,
  length-append, ◌==◌, if◌then◌else◌, Bool-cases, ==_iff,
}
use uefi_async.Common.Mutex.{AsyncMutex, detach, unlink_from, unlink}
use uefi_async.Common.Mutex.Nodups.{NotIn}
use uefi_async.Common.Mutex.Segments.{Seg}
use uefi_async.Common.Mutex.Queue.{IsQueue, Keeps}
use uefi_async.Common.Mutex.Detach.{detach-IsQueue, detach-Keeps}

-- The list without the first entry of a node.
unfoldable pub erase : ℕ → List ℕ → List ℕ
erase node [] = []
erase node (x ∷ xs) = if x == node then xs else x ∷ erase node xs

pub erase-append :
    (node : ℕ) (xs ys : List ℕ) → NotIn node xs → erase node (xs ++ node ∷ ys) ≡ xs ++ ys
unfolding erase
erase-append node [] ys out = ground arith
erase-append node (x ∷ xs) ys out = ground (arith, out.0, erase-append node xs ys out.1)

pub erase-absent : (node : ℕ) (xs : List ℕ) → NotIn node xs → erase node xs ≡ xs
unfolding erase
erase-absent node [] out = refl
erase-absent node (x ∷ xs) out = ground (arith, out.0, erase-absent node xs out.1)

-- A node is not in a list, or has a first place in it.
pub NotIn-cases :
    (node : ℕ) (xs : List ℕ)
    → NotIn node xs
      ⊎ ((ahead : List ℕ) × (behind : List ℕ) × NotIn node ahead × (xs ≡ ahead ++ node ∷ behind))
NotIn-cases node [] = inl tt
NotIn-cases node (x ∷ xs) = elim (Bool-cases (x == node)) [
  | inl same ↦ inr ([], xs, tt, ap (λ y. y ∷ xs) ((==_iff x node).0 same))
  | inr other ↦ elim (NotIn-cases node xs) [
    | inl out ↦ inl (ground arith, out)
    | inr (ahead, behind, out, e) ↦ inr (x ∷ ahead, behind, (ground arith, out), ap (λ l. x ∷ l) e)
  ]
]

module _ {A : Type 0} where
  unlink_from-found :
      (fuel node : ℕ) (s : AsyncMutex A) (pr p : ℕ) (xs ys : List ℕ)
      → Seg s.nodes pr p (xs ++ node ∷ ys) 0
      → NotIn node xs
      → length xs < fuel
      → unlink_from fuel p node s ≡ some (detach node s)
  unfolding unlink_from
  unlink_from-found zero node s pr p xs ys c out lt = absurd (omega arith)
  unlink_from-found (suc fuel) node s pr p [] ys c out lt = rw (c.0) (ground (arith, c.1))
  unlink_from-found (suc fuel) node s pr p (x ∷ xs) ys c out lt = rw (c.0) (
      ground (
        arith,
        c.1,
        out.0,
        unlink_from-found fuel node s x (s.nodes x).next xs ys c.3 out.1 (omega arith),
      ))

  unlink_from-absent :
      (fuel node : ℕ) (s : AsyncMutex A) (pr p : ℕ) (xs : List ℕ)
      → Seg s.nodes pr p xs 0
      → NotIn node xs
      → length xs < fuel
      → unlink_from fuel p node s ≡ some s
  unfolding unlink_from
  unlink_from-absent zero node s pr p xs c out lt = absurd (omega arith)
  unlink_from-absent (suc fuel) node s pr p [] c out lt = rw c (ground arith)
  unlink_from-absent (suc fuel) node s pr p (x ∷ xs) c out lt = rw (c.0) (
      ground (
        arith,
        c.1,
        out.0,
        unlink_from-absent fuel node s x (s.nodes x).next xs c.3 out.1 (omega arith),
      ))

  -- With more rounds than there are waiters `unlink` ends, and takes the node out of the queue if it
  -- is in it; the other waiters stay in order, and neither the flag, the data, nor what any node says
  -- of its waker changes.
  pub unlink_refines :
      (fuel node : ℕ) (s : AsyncMutex A) (xs : List ℕ)
      → IsQueue s xs
      → length xs < fuel
      → (s' : AsyncMutex A) × (unlink fuel node s ≡ some s')
        × IsQueue s' (erase node xs)
        × Keeps s s'
  unfolding unlink
  unlink_refines fuel node s xs h lt = elim (NotIn-cases node xs) [
    | inl out ↦ (
      s,
      unlink_from-absent fuel node s 0 s.head xs h.chain out lt,
      rw (erase-absent node xs out) h,
      record { locked = refl; data_ = refl; waker = λ y. refl; woken = λ y. refl },
    )
    | inr (ahead, behind, out, e) ↦
        let h' = subst (IsQueue s) e h in
        (
          detach node s,
          unlink_from-found fuel node s 0 s.head ahead behind h'.chain out
              (omega (arith, ap length e, length-append ahead (node ∷ behind))),
          rw (e, erase-append node ahead behind out) (detach-IsQueue s ahead node behind h'),
          detach-Keeps node s,
        )
  ]
