-- ===== src/Static/Lifo/Stealing/Virtual.antt =====
-- The queue of async/src/no_alloc/lifo.rs as its owner sees it while a steal is in progress: without
-- the items that are booked. `push` and `pop` do not read `head`.
use uefi_async.Base.{
  ℕ, ◌^◌, ◌<◌, ◌≡◌, refl, ap, List, [], ◌∷◌, ◌++◌, arith, length, set, sub_u32, take, drop,
}
use uefi_async.Static.Lifo.{Queue, booked, tail, index, write_at, push, pop}

abbrev pub virtual : Queue → Queue
virtual q = record q { head = booked q }

module _ (cap : ℕ) where
  pub pop-virtual :
      (q : Queue)
      → q.pop_count_and_head < 2 ^ 64
      → ((pop cap (virtual q)).0 ≡ (pop cap q).0)
        × ((pop cap (virtual q)).1 ≡ virtual (pop cap q).1)
        × ((pop cap q).1.buffer ≡ q.buffer)
        × ((pop cap q).1.head ≡ q.head)
        × (booked (pop cap q).1 ≡ booked q)
  unfolding pop
  pop-virtual q h = (ground arith, ground arith, ground arith, ground arith, ground arith)

  pub push-virtual :
      (q : Queue) (x : ℕ)
      → ((push cap (virtual q) x).0 ≡ (push cap q x).0)
        × ((push cap (virtual q) x).1 ≡ virtual (push cap q x).1)
        × ((push cap q x).1.head ≡ q.head)
        × (booked (push cap q x).1 ≡ booked q)
  unfolding push
  push-virtual q x = (ground arith, ground arith, ground arith, ground arith)

  pub push-buffer :
      (q : Queue) (x : ℕ)
      → sub_u32 (tail q) (booked q) < cap
      → (push cap q x).1.buffer ≡ set q.buffer (index cap (tail q)) x
  unfolding push write_at
  push-buffer q x room = ground arith

pub take-append : (xs ys : List ℕ) → take (length xs) (xs ++ ys) ≡ xs
take-append [] ys = refl
take-append (x ∷ xs) ys = ap (λ l. x ∷ l) (take-append xs ys)

pub drop-append : (xs ys : List ℕ) → drop (length xs) (xs ++ ys) ≡ ys
drop-append [] ys = refl
drop-append (x ∷ xs) ys = drop-append xs ys
