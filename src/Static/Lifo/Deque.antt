-- ===== src/Static/Lifo/Deque.antt =====
-- What the queue of async/src/no_alloc/lifo.rs promises: a list, oldest first, whose owner works at
-- the end and whose thieves take from the front.
use uefi_async.Base.{
  ℕ, ◌≡◌, refl, ap, List, [], ◌∷◌, ◌++◌, Option, none, some, length, ◌==◌, if◌then◌else◌,
}
use uefi_async.Static.Lifo.{Result, ok, err}

unfoldable pub push : ℕ → List ℕ → ℕ → Result ℕ (Unit {0}) × List ℕ
push cap xs x = if length xs == cap then (err x, xs) else (ok tt, xs ++ x ∷ [])

unfoldable pub pop : List ℕ → Option ℕ × List ℕ
pop [] = (none, [])
pop (x ∷ []) = (some x, [])
pop (x ∷ y ∷ xs) = let (last, init) = pop (y ∷ xs) in (last, x ∷ init)

pub pop-append : (xs : List ℕ) (y : ℕ) → pop (xs ++ y ∷ []) ≡ (some y, xs)
unfolding pop
pop-append [] y = refl
pop-append (x ∷ []) y = refl
pop-append (x ∷ z ∷ xs) y = ap (λ (r : Option ℕ × List ℕ). (r.0, x ∷ r.1)) (pop-append (z ∷ xs) y)
