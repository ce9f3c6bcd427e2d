-- ===== src/Common/Mutex/Wakes.antt =====
-- The loop of `unlock` in async/src/common/mutex.rs: which waiter it wakes.
use mathlib.Core.Path.{fun_ext}
use uefi_async.Base.{
  ℕ, zero, suc, ◌<◌, ◌≡◌, refl, sym, ap, ◌∙◌, subst, List, [], ◌∷◌, Bool, true, false, Option, none,
  some, arith, length, ◌==◌, if◌then◌else◌, assign, inl, inr, Option-cases,
}
use uefi_async.Common.Mutex.{AsyncMutex, pop_head, pop_waker, unlock}
use uefi_async.Common.Mutex.Segments.{Seg-links}
use uefi_async.Common.Mutex.Queue.{IsQueue, Keeps}
use uefi_async.Common.Mutex.Pops.{pop_head-IsQueue, pop_head-Keeps}

-- The oldest waiter with a waker, that waker, and the waiters behind it.
unfoldable pub wake_next : (ℕ → Option ℕ) → List ℕ → Option (ℕ × ℕ) × List ℕ
wake_next wakers [] = (none, [])
wake_next wakers (x ∷ xs) =
    let rest = wake_next wakers xs in elim (wakers x) [ none ↦ rest | some w ↦ (some (x, w), xs) ]

abbrev pub wakers : {A : Type 0} → AsyncMutex A → ℕ → Option ℕ
wakers s y = (s.nodes y).waker

-- Nothing but the queue changes, except that the waiter found is marked woken and loses its waker.
abbrev pub Woken : {A : Type 0} → Option (ℕ × ℕ) → AsyncMutex A → AsyncMutex A → Type 0
Woken none s t = Keeps s t
Woken (some (x, w)) s t =
    (t.locked ≡ s.locked)
    × (t.data_ ≡ s.data_)
    × ((y : ℕ) → (t.nodes y).waker ≡ (if x == y then none else (s.nodes y).waker))
    × ((y : ℕ) → (t.nodes y).woken ≡ (if x == y then true else (s.nodes y).woken))

abbrev pub waker_of : Option (ℕ × ℕ) → Option ℕ
waker_of none = none
waker_of (some (x, w)) = some w

pub wake_next-parked :
    (ws : ℕ → Option ℕ) (x w : ℕ) (xs : List ℕ)
    → ws x ≡ some w
    → wake_next ws (x ∷ xs) ≡ (some (x, w), xs)
unfolding wake_next
wake_next-parked ws x w xs e = ground (arith, e)

pub wake_next-skip :
    (ws : ℕ → Option ℕ) (x : ℕ) (xs : List ℕ)
    → ws x ≡ none
    → wake_next ws (x ∷ xs) ≡ wake_next ws xs
unfolding wake_next
wake_next-skip ws x xs e = ground (arith, e)

module _ {A : Type 0} where
  Woken-after :
      (found : Option (ℕ × ℕ)) (s t u : AsyncMutex A)
      → Keeps s t
      → Woken found t u
      → Woken found s u
  Woken-after none s t u k w = record {
    locked = w.locked ∙ k.locked;
    data_ = w.data_ ∙ k.data_;
    waker = λ y. w.waker y ∙ k.waker y;
    woken = λ y. w.woken y ∙ k.woken y;
  }
  Woken-after (some (x, w)) s t u k (l, d, a, b) = (
    l ∙ k.locked,
    d ∙ k.data_,
    λ y. a y ∙ ap (λ (o : Option ℕ). if x == y then none else o) (k.waker y),
    λ y. b y ∙ ap (λ (o : Bool). if x == y then true else o) (k.woken y),
  )

  pub Woken-locked :
      (found : Option (ℕ × ℕ)) (s t : AsyncMutex A) → Woken found s t → t.locked ≡ s.locked
  Woken-locked none s t w = w.locked
  Woken-locked (some (x, w)) s t k = k.0

  -- The waiter that the loop marks.
  abbrev marked : ℕ → AsyncMutex A → AsyncMutex A
  marked x s = record s {
    nodes = assign s.nodes x (record (s.nodes x) { waker = none; woken = true });
  }

  marked-IsQueue : (s : AsyncMutex A) (x : ℕ) (xs : List ℕ) → IsQueue s xs → IsQueue (marked x s) xs
  marked-IsQueue s x xs h = record {
    chain = Seg-links s.nodes x _ 0 s.head xs 0 refl refl h.chain;
    ending = h.ending;
    distinct = h.distinct;
  }

  pop_waker-nil :
      (fuel : ℕ) (s : AsyncMutex A) → IsQueue s [] → pop_waker (suc fuel) s ≡ some (none, s)
  unfolding pop_waker
  pop_waker-nil fuel s h = ground (arith, h.chain)

  pop_waker_parked :
      (fuel w : ℕ) (s : AsyncMutex A)
      → 0 < s.head
      → wakers s s.head ≡ some w
      → pop_waker (suc fuel) s ≡ some (some w, marked s.head (pop_head s))
  unfolding pop_waker
  pop_waker_parked fuel w s pos e =
      let e' = (pop_head-Keeps s).waker s.head ∙ e in ground (arith, e')

  pop_waker_skip :
      (fuel : ℕ) (s : AsyncMutex A)
      → 0 < s.head
      → wakers s s.head ≡ none
      → pop_waker (suc fuel) s ≡ pop_waker fuel (pop_head s)
  unfolding pop_waker
  pop_waker_skip fuel s pos e = let e' = (pop_head-Keeps s).waker s.head ∙ e in ground (arith, e')

  -- What the loop promises for a queue: the state it ends in, and what it returns.
  abbrev pub Woke : ℕ → AsyncMutex A → Option (ℕ × ℕ) × List ℕ → Type 0
  Woke fuel s (found, rest) =
      (s' : AsyncMutex A) × (pop_waker fuel s ≡ some (waker_of found, s'))
      × IsQueue s' rest
      × Woken found s s'

  Woke-parked :
      (fuel : ℕ) (s : AsyncMutex A) (x w : ℕ) (xs : List ℕ)
      → IsQueue s (x ∷ xs)
      → wakers s x ≡ some w
      → Woke (suc fuel) s (some (x, w), xs)
  Woke-parked fuel s x w xs h e =
      let k = pop_head-Keeps s in
      let at_x = pop_waker_parked fuel w s (omega (arith, h.chain)) (ap (wakers s) h.chain.0 ∙ e) in
      (
        marked x (pop_head s),
        at_x ∙ ap (λ y. some (some w, marked y (pop_head s))) h.chain.0,
        marked-IsQueue (pop_head s) x xs (pop_head-IsQueue s x xs h),
        (k.locked, k.data_, λ y. ground (arith, k.waker y), λ y. ground (arith, k.woken y)),
      )

  Woke-skip :
      (fuel : ℕ) (s : AsyncMutex A) (x : ℕ) (xs : List ℕ) (out : Option (ℕ × ℕ) × List ℕ)
      → IsQueue s (x ∷ xs)
      → wakers s x ≡ none
      → Woke fuel (pop_head s) out
      → Woke (suc fuel) s out
  Woke-skip fuel s x xs (found, rest) h e (s', run, queue, woken) =
      let at_x = pop_waker_skip fuel s (omega (arith, h.chain)) (ap (wakers s) h.chain.0 ∙ e) in
      (s', at_x ∙ run, queue, Woken-after found s (pop_head s) s' (pop_head-Keeps s) woken)

  pub pop_waker_refines :
      (fuel : ℕ) (s : AsyncMutex A) (xs : List ℕ)
      → IsQueue s xs
      → length xs < fuel
      → Woke fuel s (wake_next (wakers s) xs)
  unfolding wake_next
  pop_waker_refines zero s xs h lt = absurd (omega arith)
  pop_waker_refines (suc fuel) s [] h lt = (
    s,
    pop_waker-nil fuel s h,
    h,
    record { locked = refl; data_ = refl; waker = λ y. refl; woken = λ y. refl },
  )
  pop_waker_refines (suc fuel) s (x ∷ xs) h lt = elim (Option-cases (wakers s x)) [
    | inl e ↦
        let ih = pop_waker_refines fuel (pop_head s) xs (pop_head-IsQueue s x xs h) (omega arith) in
        let same : wakers (pop_head s) ≡ wakers s = fun_ext (pop_head-Keeps s).waker in
        subst (Woke (suc fuel) s) (sym (wake_next-skip (wakers s) x xs e)) (
          Woke-skip fuel s x xs (wake_next (wakers s) xs) h e
            (subst (λ ws. Woke fuel (pop_head s) (wake_next ws xs)) same ih))
    | inr (w, e) ↦
        subst (Woke (suc fuel) s) (sym (wake_next-parked (wakers s) x w xs e))
          (Woke-parked fuel s x w xs h e)
  ]

  -- With more rounds than there are waiters `unlock` ends with the flag clear, and takes from the
  -- queue its oldest waiter that has a waker and all ahead of it, which have none; that waiter is
  -- marked woken, its waker is taken from it and returned, and no other waiter changes. When no
  -- waiter has a waker the queue is empty afterwards and no waker is returned.
  pub unlock_refines :
      (fuel : ℕ) (s : AsyncMutex A) (xs : List ℕ)
      → IsQueue s xs
      → length xs < fuel
      → let (found, rest) = wake_next (wakers s) xs in
        (s' : AsyncMutex A) × (unlock fuel s ≡ some (waker_of found, s'))
        × (s'.locked ≡ false)
        × IsQueue s' rest
        × Woken found (record s { locked = false }) s'
  unfolding unlock
  unlock_refines fuel s xs h lt =
      let clear = record s { locked = false } in
      let h' : IsQueue clear xs = record {
        chain = h.chain;
        ending = h.ending;
        distinct = h.distinct;
      } in
      let (s', run, queue, woken) = pop_waker_refines fuel clear xs h' lt in
      (s', run, Woken-locked (wake_next (wakers s) xs).0 clear s' woken, queue, woken)
