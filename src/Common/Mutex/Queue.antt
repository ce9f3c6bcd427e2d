-- ===== src/Common/Mutex/Queue.antt =====
-- The queue of waiters of async/src/common/mutex.rs as a list of nodes, oldest first, and `link`.
use uefi_async.Base.{ℕ, ◌<◌, ◌≡◌, ◌≢◌, refl, sym, ◌∙◌, List, [], ◌∷◌, ◌++◌, arith}
use uefi_async.Common.Mutex.{Waiter, AsyncMutex, with_next, with_prev, link}
use uefi_async.Common.Mutex.Nodups.{NotIn, Nodup, Nodup-append, Apart-one}
use uefi_async.Common.Mutex.Segments.{Seg, last, last-ne, Seg-frame, Seg-append, Seg-with_next}

pub record IsQueue {A : Type 0} (s : AsyncMutex A) (xs : List ℕ) : Type 0 where
  pub chain : Seg s.nodes 0 s.head xs 0
  pub ending : s.tail ≡ last 0 xs
  pub distinct : Nodup xs

-- What the operations on the queue leave: the flag, the data, and what the nodes say of wakers.
pub record Keeps {A : Type 0} (s t : AsyncMutex A) : Type 0 where
  pub locked : t.locked ≡ s.locked
  pub data_ : t.data_ ≡ s.data_
  pub waker : (y : ℕ) → (t.nodes y).waker ≡ (s.nodes y).waker
  pub woken : (y : ℕ) → (t.nodes y).woken ≡ (s.nodes y).woken

pub last-pos :
    (nodes : ℕ → Waiter) (pr p x : ℕ) (xs : List ℕ) (q : ℕ)
    → Seg nodes pr p (x ∷ xs) q
    → 0 < last x xs
last-pos nodes pr p x [] q s = s.1
last-pos nodes pr p x (y ∷ ys) q s = last-pos nodes x (nodes x).next y ys q s.3

pub last-append : (pr : ℕ) (xs : List ℕ) (y : ℕ) (ys : List ℕ) → last pr (xs ++ y ∷ ys) ≡ last y ys
last-append pr [] y ys = refl
last-append pr (x ∷ xs) y ys = last-append x xs y ys

module _ {A : Type 0} where
  link-first :
      (node : ℕ) (s : AsyncMutex A) → 0 < node → IsQueue s [] → IsQueue (link node s) (node ∷ [])
  unfolding link
  link-first node s pos h = record {
    chain = ground (arith, h.ending);
    ending = ground (arith, h.ending);
    distinct = (tt, tt);
  }

  -- The nodes after the first two writes of `link`, and after the third.
  abbrev fresh : ℕ → AsyncMutex A → ℕ → Waiter
  fresh node s = with_next (with_prev s.nodes node s.tail) node 0

  link_many :
      (node t : ℕ) (s : AsyncMutex A)
      → 0 < t
      → s.tail ≡ t
      → link node s ≡ record s { nodes = with_next (fresh node s) t node; tail = node }
  unfolding link
  link_many node t s pos e = rw e (ground arith)

  Seg-fresh :
      (node x : ℕ) (xs : List ℕ) (s : AsyncMutex A)
      → NotIn node (x ∷ xs)
      → IsQueue s (x ∷ xs)
      → Seg (fresh node s) 0 s.head (x ∷ xs) 0
  Seg-fresh node x xs s out h =
      Seg-frame (with_prev s.nodes node s.tail) node _ 0 s.head (x ∷ xs) 0 out
        (Seg-frame s.nodes node _ 0 s.head (x ∷ xs) 0 out h.chain)

  link-last :
      (node x : ℕ) (xs : List ℕ) (s : AsyncMutex A)
      → 0 < node
      → NotIn node (x ∷ xs)
      → IsQueue s (x ∷ xs)
      → IsQueue (link node s) ((x ∷ xs) ++ node ∷ [])
  link-last node x xs s pos out h =
      rw (link_many node (last x xs) s (last-pos s.nodes 0 s.head x xs 0 h.chain) h.ending)
        (record {
          chain =
              Seg-append nodes' 0 s.head (x ∷ xs) (node ∷ []) node 0
                (Seg-with_next (fresh node s) 0 s.head x xs 0 node h.distinct
                  (Seg-fresh node x xs s out h))
                (refl, pos, before ∙ h.ending, after);
          ending = sym (last-append x xs node []);
          distinct =
              Nodup-append (x ∷ xs) (node ∷ []) h.distinct (Apart-one (x ∷ xs) node out) (tt, tt);
        })
    where
      nodes' : ℕ → Waiter
      nodes' = with_next (fresh node s) (last x xs) node

      other : last x xs ≢ node
      other = last-ne node x xs out.0 out.1

      before : (nodes' node).prev ≡ s.tail
      before = ground (arith, other)

      after : (nodes' node).next ≡ 0
      after = ground (arith, other)

  -- Linking a node puts it at the end.
  pub link-IsQueue :
      (node : ℕ) (xs : List ℕ) (s : AsyncMutex A)
      → 0 < node
      → NotIn node xs
      → IsQueue s xs
      → IsQueue (link node s) (xs ++ node ∷ [])
  link-IsQueue node [] s pos out h = link-first node s pos h
  link-IsQueue node (x ∷ xs) s pos out h = link-last node x xs s pos out h

  pub link-Keeps : (node : ℕ) (s : AsyncMutex A) → Keeps s (link node s)
  unfolding link
  link-Keeps node s = record {
    locked = ground arith;
    data_ = ground arith;
    waker = λ y. ground arith;
    woken = λ y. ground arith;
  }
