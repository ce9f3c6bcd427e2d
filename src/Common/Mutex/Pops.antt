-- ===== src/Common/Mutex/Pops.antt =====
-- The head taken out of the queue of async/src/common/mutex.rs, in the loop of `unlock`.
use uefi_async.Base.{ℕ, ◌<◌, ◌≡◌, subst, List, [], ◌∷◌, arith}
use uefi_async.Common.Mutex.{
  AsyncMutex, with_next, with_prev, clear_links, advance, forget_prev, pop_head,
}
use uefi_async.Common.Mutex.Segments.{Seg, Seg-frame, Seg-with_prev}
use uefi_async.Common.Mutex.Queue.{IsQueue, Keeps}

module _ {A : Type 0} where
  pop_head_lem :
      (s : AsyncMutex A) (x y : ℕ)
      → s.head ≡ x
      → (s.nodes x).next ≡ y
      → 0 < y
      → pop_head s ≡ clear_links x (record s { head = y; nodes = with_prev s.nodes y 0 })
  unfolding pop_head advance forget_prev
  pop_head_lem s x y e n pos = rw (e, n) (ground arith)

  pop_head_one : (s : AsyncMutex A) (x : ℕ) → IsQueue s (x ∷ []) → IsQueue (pop_head s) []
  unfolding pop_head advance forget_prev clear_links
  pop_head_one s x h = record {
    chain = ground (arith, h.chain);
    ending = ground (arith, h.chain);
    distinct = tt;
  }

  pop_head_more :
      (s : AsyncMutex A) (x y : ℕ) (ys : List ℕ)
      → IsQueue s (x ∷ y ∷ ys)
      → IsQueue (pop_head s) (y ∷ ys)
  unfolding clear_links
  pop_head_more s x y ys h =
      let (head, _, _, rest) = h.chain in
      let next = rest.0 in
      let n0 = with_prev s.nodes y 0 in
      let n1 = with_next n0 x 0 in
      let c0 = Seg-with_prev s.nodes x (s.nodes x).next y ys 0 0 h.distinct.1.0 rest in
      let c1 =
        Seg-frame n0 x (record (n0 x) { next = 0 }) 0 (s.nodes x).next (y ∷ ys) 0 h.distinct.0 c0 in
      let c2 =
        Seg-frame n1 x (record (n1 x) { prev = 0 }) 0 (s.nodes x).next (y ∷ ys) 0 h.distinct.0 c1 in
      rw (pop_head_lem s x y head next rest.1) (record {
        chain = subst (λ p. Seg (with_prev n1 x 0) 0 p (y ∷ ys) 0) next c2;
        ending = h.ending;
        distinct = h.distinct.1;
      })

  pub pop_head-IsQueue :
      (s : AsyncMutex A) (x : ℕ) (xs : List ℕ) → IsQueue s (x ∷ xs) → IsQueue (pop_head s) xs
  pop_head-IsQueue s x [] h = pop_head_one s x h
  pop_head-IsQueue s x (y ∷ ys) h = pop_head_more s x y ys h

  pub pop_head-Keeps : (s : AsyncMutex A) → Keeps s (pop_head s)
  unfolding pop_head advance forget_prev clear_links
  pop_head-Keeps s = record {
    locked = ground arith;
    data_ = ground arith;
    waker = λ y. ground arith;
    woken = λ y. ground arith;
  }
