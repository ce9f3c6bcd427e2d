-- ===== src/Common/Mutex/Detach.antt =====
-- The writes with which `unlink` of async/src/common/mutex.rs takes a node out of the queue.
use uefi_async.Base.{ℕ, ◌<◌, ◌≡◌, refl, sym, ◌∙◌, List, [], ◌∷◌, ◌++◌, arith}
use uefi_async.Common.Mutex.{
  AsyncMutex, with_next, with_prev, skip_forward, skip_back, clear_links, detach,
}
use uefi_async.Common.Mutex.Nodups.{NotIn, Nodup, Nodup-split, Nodup-append, Apart-cons}
use uefi_async.Common.Mutex.Segments.{
  Seg, last, All_last, Seg-frame, Seg-append, Seg-split, Seg-with_next, Seg-with_prev,
}
use uefi_async.Common.Mutex.Queue.{IsQueue, Keeps, last-append, last-pos}

last_append : (pr : ℕ) (xs ys : List ℕ) → last pr (xs ++ ys) ≡ last (last pr xs) ys
last_append pr [] ys = refl
last_append pr (x ∷ xs) ys = last_append x xs ys

module _ {A : Type 0} where
  -- A node taken out of the middle, in three steps: links from the front and from behind lead past
  -- it, and it has none.
  record Passed (s : AsyncMutex A) (xs : List ℕ) (node : ℕ) (ys : List ℕ) (n : ℕ) : Type 0 where
    front : Seg s.nodes 0 s.head xs n
    back : Seg s.nodes node n ys 0
    here : ((s.nodes node).prev ≡ last 0 xs) × ((s.nodes node).next ≡ n)
    ending : s.tail ≡ last node ys

  skip_forward-first :
      (s : AsyncMutex A) (node : ℕ) (ys : List ℕ)
      → IsQueue s (node ∷ ys)
      → Passed (skip_forward node s) [] node ys (s.nodes node).next
  unfolding skip_forward
  skip_forward-first s node ys h =
      rw (h.chain.2)
        (record { front = refl; back = h.chain.3; here = (h.chain.2, refl); ending = h.ending })

  skip_forward_lem :
      (s : AsyncMutex A) (node l : ℕ)
      → 0 < l
      → (s.nodes node).prev ≡ l
      → skip_forward node s ≡ record s { nodes = with_next s.nodes l (s.nodes node).next }
  unfolding skip_forward
  skip_forward_lem s node l pos e = rw e (ground arith)

  skip_forward-last :
      (s : AsyncMutex A) (x : ℕ) (xs : List ℕ) (node : ℕ) (ys : List ℕ)
      → IsQueue s ((x ∷ xs) ++ node ∷ ys)
      → Passed (skip_forward node s) (x ∷ xs) node ys (s.nodes node).next
  skip_forward-last s x xs node ys h =
      let (d, apart, d') = Nodup-split (x ∷ xs) (node ∷ ys) h.distinct in
      let (m, front, back) = Seg-split s.nodes 0 s.head (x ∷ xs) (node ∷ ys) 0 h.chain in
      let out = All_last (λ z. NotIn z (node ∷ ys)) x xs apart in
      let l = last x xs in
      let r = (s.nodes node).next in
      let same : with_next s.nodes l r node ≡ s.nodes node = ground (arith, out.0) in
      rw (skip_forward_lem s node l (last-pos s.nodes 0 s.head x xs m front) back.2) (record {
        front = Seg-with_next s.nodes 0 s.head x xs m r d front;
        back = Seg-frame s.nodes l _ node r ys 0 out.1 back.3;
        here = rw same (back.2, refl);
        ending = h.ending ∙ last-append x xs node ys;
      })

  record Skipped (s : AsyncMutex A) (xs : List ℕ) (n : ℕ) (ys : List ℕ) : Type 0 where
    front : Seg s.nodes 0 s.head xs n
    back : Seg s.nodes (last 0 xs) n ys 0
    ending : s.tail ≡ last (last 0 xs) ys

  skip_back-end :
      (s : AsyncMutex A) (xs : List ℕ) (node n : ℕ)
      → Passed s xs node [] n
      → Skipped (skip_back node s) xs n []
  unfolding skip_back
  skip_back-end s xs node n h =
      rw (h.here.1 ∙ h.back) (record { front = h.front; back = h.back; ending = h.here.0 })

  skip_back_lem :
      (s : AsyncMutex A) (node y : ℕ)
      → 0 < y
      → (s.nodes node).next ≡ y
      → skip_back node s ≡ record s { nodes = with_prev s.nodes y (s.nodes node).prev }
  unfolding skip_back
  skip_back_lem s node y pos e = rw e (ground arith)

  skip_back-more :
      (s : AsyncMutex A) (xs : List ℕ) (node n y : ℕ) (ys : List ℕ)
      → NotIn y xs
      → NotIn y ys
      → Passed s xs node (y ∷ ys) n
      → Skipped (skip_back node s) xs n (y ∷ ys)
  skip_back-more s xs node n y ys out out' h =
      rw (skip_back_lem s node y h.back.1 (h.here.1 ∙ h.back.0), h.here.0)
        (record {
          front = Seg-frame s.nodes y _ 0 s.head xs n out h.front;
          back = Seg-with_prev s.nodes node n y ys 0 (last 0 xs) out' h.back;
          ending = h.ending;
        })

  clear_links-Skipped :
      (s : AsyncMutex A) (xs : List ℕ) (node n : ℕ) (ys : List ℕ)
      → NotIn node xs
      → NotIn node ys
      → Skipped s xs n ys
      → Skipped (clear_links node s) xs n ys
  unfolding clear_links
  clear_links-Skipped s xs node n ys out out' h =
      let n1 = with_next s.nodes node 0 in
      record {
        front =
            Seg-frame n1 node _ 0 s.head xs n out
              (Seg-frame s.nodes node _ 0 s.head xs n out h.front);
        back =
            Seg-frame n1 node _ (last 0 xs) n ys 0 out'
              (Seg-frame s.nodes node _ (last 0 xs) n ys 0 out' h.back);
        ending = h.ending;
      }

  Skipped-IsQueue :
      (s : AsyncMutex A) (xs : List ℕ) (n : ℕ) (ys : List ℕ)
      → Nodup (xs ++ ys)
      → Skipped s xs n ys
      → IsQueue s (xs ++ ys)
  Skipped-IsQueue s xs n ys d h = record {
    chain = Seg-append s.nodes 0 s.head xs ys n 0 h.front h.back;
    ending = h.ending ∙ sym (last_append 0 xs ys);
    distinct = d;
  }

  detach-Skipped :
      (s : AsyncMutex A) (xs : List ℕ) (node : ℕ) (ys : List ℕ)
      → IsQueue s (xs ++ node ∷ ys)
      → (n : ℕ) × Skipped (skip_back node (skip_forward node s)) xs n ys
  detach-Skipped s xs node ys h = ((s.nodes node).next, behind ys h (before xs h))
    where
      before :
          (xs : List ℕ)
          → IsQueue s (xs ++ node ∷ ys)
          → Passed (skip_forward node s) xs node ys (s.nodes node).next
      before [] h = skip_forward-first s node ys h
      before (x ∷ xs) h = skip_forward-last s x xs node ys h

      behind :
          (ys : List ℕ)
          → IsQueue s (xs ++ node ∷ ys)
          → Passed (skip_forward node s) xs node ys (s.nodes node).next
          → Skipped (skip_back node (skip_forward node s)) xs (s.nodes node).next ys
      behind [] h p = skip_back-end (skip_forward node s) xs node (s.nodes node).next p
      behind (y ∷ ys) h p =
          let (_, apart, d) = Nodup-split xs (node ∷ y ∷ ys) h.distinct in
          skip_back-more (skip_forward node s) xs node (s.nodes node).next y ys
            (Apart-cons xs y ys (Apart-cons xs node (y ∷ ys) apart).1).0 d.1.0 p

  -- Detaching a node of the queue takes it out and leaves the others in order.
  pub detach-IsQueue :
      (s : AsyncMutex A) (xs : List ℕ) (node : ℕ) (ys : List ℕ)
      → IsQueue s (xs ++ node ∷ ys)
      → IsQueue (detach node s) (xs ++ ys)
  unfolding detach
  detach-IsQueue s xs node ys h =
      let (dx, apart, dy) = Nodup-split xs (node ∷ ys) h.distinct in
      let (out, apart') = Apart-cons xs node ys apart in
      let (n, skipped) = detach-Skipped s xs node ys h in
      Skipped-IsQueue (clear_links node (skip_back node (skip_forward node s))) xs n ys
        (Nodup-append xs ys dx apart' dy.1)
        (clear_links-Skipped (skip_back node (skip_forward node s)) xs node n ys out dy.0 skipped)

  pub detach-Keeps : (node : ℕ) (s : AsyncMutex A) → Keeps s (detach node s)
  unfolding detach skip_forward skip_back clear_links
  detach-Keeps node s = record {
    locked = ground arith;
    data_ = ground arith;
    waker = λ y. ground arith;
    woken = λ y. ground arith;
  }
