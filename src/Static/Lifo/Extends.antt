-- ===== src/Static/Lifo/Extends.antt =====
-- `extend` of async/src/no_alloc/lifo.rs.
use native.Mathlib.Decide.{dec_lt}
use uefi_async.Base.{
  ℕ, zero, suc, ◌+◌, ◌-◌, ◌%◌, ◌^◌, ◌≤◌, ◌<◌, ◌≡◌, ◌≢◌, refl, sym, ap, ◌∙◌, subst, List, [], ◌∷◌,
  ◌++◌, arith, ◌==◌, length, length-set, add_u32, append_assoc, append-nil, take, true, false,
}
use uefi_async.Static.Lifo.{Queue, pop_count, tail, index, write_at, extend, extend_from}
use uefi_async.Static.Lifo.Window.{window, index_wrap, window_push, cap_small}
use uefi_async.Static.Lifo.Refine.{IsValid, len, items}

take-nil : (n : ℕ) → ◌≡◌ {A = List ℕ} (take n []) []
take-nil zero = refl
take-nil (suc n) = refl

take_cons : (n m : ℕ) (x : ℕ) (xs : List ℕ) → n ≡ suc m → take n (x ∷ xs) ≡ x ∷ take m xs
take_cons n m x xs e = ap (λ i. take i (x ∷ xs)) e

length-take : (n : ℕ) (xs : List ℕ) → length (take n xs) ≤ n
length-take zero xs = omega arith
length-take (suc n) [] = omega arith
length-take (suc n) (x ∷ xs) = omega (arith, length-take n xs)

module _ (k : ℕ) (small : k < 32) where
  -- Where the loop stands after `m` items from position `h` on.
  abbrev place : ℕ → ℕ → ℕ
  place h m = (h + m) % 2 ^ 32

  place_full : (h m : ℕ) → m ≡ 2 ^ k → (place h m == add_u32 h (2 ^ k)) ≡ true
  place_full h m e = ground arith

  place_room : (h m : ℕ) → m < 2 ^ k → (place h m == add_u32 h (2 ^ k)) ≡ false
  place_room h m lt =
      let far : place h m ≢ add_u32 h (2 ^ k) = omega (arith, cap_small k small) in
      ground (arith, far)

  -- What the loop leaves: `more` behind the `m` items that were there.
  record Extended (buffer : List ℕ) (h m : ℕ) (more : List ℕ) (out : List ℕ × ℕ) : Type 0 where
    room : length out.0 ≡ length buffer
    stop : out.1 ≡ place h (m + length more)
    contents : window (2 ^ k) out.0 h (m + length more) ≡ window (2 ^ k) buffer h m ++ more

  extend_from_stop :
      (buffer : List ℕ) (p x : ℕ) (max_tail : ℕ) (xs : List ℕ)
      → (p == max_tail) ≡ true
      → extend_from (2 ^ k) buffer p max_tail (x ∷ xs) ≡ (buffer, p)
  unfolding extend_from
  extend_from_stop buffer p x max_tail xs e = ground (arith, e)

  extend_from_write :
      (buffer : List ℕ) (p x : ℕ) (max_tail : ℕ) (xs : List ℕ)
      → (p == max_tail) ≡ false
      → extend_from (2 ^ k) buffer p max_tail (x ∷ xs)
        ≡ extend_from (2 ^ k) (write_at (2 ^ k) buffer p x) (add_u32 p 1) max_tail xs
  unfolding extend_from
  extend_from_write buffer p x max_tail xs e = ground (arith, e)

  Extended-none : (buffer : List ℕ) (h m : ℕ) → Extended buffer h m [] (buffer, place h m)
  Extended-none buffer h m = record {
    room = refl;
    stop = omega arith;
    contents =
        ap (window (2 ^ k) buffer h) {x = m + 0} {y = m} (omega arith)
        ∙ sym (append-nil (window (2 ^ k) buffer h m));
  }

  Extended-cons :
      (buffer : List ℕ) (h m x : ℕ) (more : List ℕ) (out : List ℕ × ℕ)
      → 2 ^ k ≤ length buffer
      → m < 2 ^ k
      → Extended (write_at (2 ^ k) buffer (place h m) x) h (m + 1) more out
      → Extended buffer h m (x ∷ more) out
  unfolding write_at
  Extended-cons buffer h m x more out long lt e = record {
    room = e.room ∙ length-set buffer (index (2 ^ k) (place h m)) x;
    stop =
        e.stop ∙ ap (place h) {x = m + 1 + length more} {y = m + length (x ∷ more)} (omega arith);
    contents =
        ap (window (2 ^ k) out.0 h) {x = m + length (x ∷ more)} {y = m + 1 + length more}
          (omega arith)
        ∙ e.contents
        ∙ ap (λ l. l ++ more)
            (window_push (2 ^ k) buffer x h m (index (2 ^ k) (place h m)) long
              (index_wrap k small (h + m)) lt)
        ∙ append_assoc (window (2 ^ k) buffer h m) (x ∷ []) more;
  }

  longer :
      (buffer : List ℕ) (p x : ℕ)
      → 2 ^ k ≤ length buffer
      → 2 ^ k ≤ length (write_at (2 ^ k) buffer p x)
  unfolding write_at
  longer buffer p x long = omega (arith, length-set buffer (index (2 ^ k) p) x)

  extend_from-Extended :
      (buffer : List ℕ) (h m : ℕ) (xs : List ℕ)
      → 2 ^ k ≤ length buffer
      → m ≤ 2 ^ k
      → Extended buffer h m
          (take (2 ^ k - m) xs)
          (extend_from (2 ^ k) buffer (place h m) (add_u32 h (2 ^ k)) xs)
  unfolding extend_from
  extend_from-Extended buffer h m [] long le = rw (take-nil (2 ^ k - m)) (Extended-none buffer h m)
  extend_from-Extended buffer h m (x ∷ xs) long le = elim (dec_lt m (2 ^ k)) [
    | yes lt ↦
        let buffer' = write_at (2 ^ k) buffer (place h m) x in
        let step : extend_from (2 ^ k) buffer (place h m) (add_u32 h (2 ^ k)) (x ∷ xs)
            ≡ extend_from (2 ^ k) buffer' (place h (m + 1)) (add_u32 h (2 ^ k)) xs =
          extend_from_write buffer (place h m) x (add_u32 h (2 ^ k)) xs (place_room h m lt)
          ∙ ap (λ p. extend_from (2 ^ k) buffer' p (add_u32 h (2 ^ k)) xs)
              {x = add_u32 (place h m) 1} {y = place h (m + 1)} (omega arith) in
        let ih =
          extend_from-Extended buffer' h (m + 1) xs (longer buffer (place h m) x long)
            (omega arith) in
        subst (Extended buffer h m (take (2 ^ k - m) (x ∷ xs))) (sym step) (
          subst
            (λ l.
              Extended buffer h m l
                (extend_from (2 ^ k) buffer' (place h (m + 1)) (add_u32 h (2 ^ k)) xs))
            (sym (take_cons (2 ^ k - m) (2 ^ k - (m + 1)) x xs (omega arith)))
            (Extended-cons buffer h m x (take (2 ^ k - (m + 1)) xs) _ long lt ih))
    | no ge ↦
        let none_left : 2 ^ k - m ≡ 0 = omega arith in
        subst (Extended buffer h m (take (2 ^ k - m) (x ∷ xs)))
          (sym (
            extend_from_stop buffer (place h m) x (add_u32 h (2 ^ k)) xs
              (place_full h m (omega arith))))
          (subst (λ n. Extended buffer h m (take n (x ∷ xs)) (buffer, place h m)) (sym none_left)
            (Extended-none buffer h m))
  ]

  -- The queue that `extend` makes of what the loop leaves.
  abbrev extended : Queue → List ℕ × ℕ → Queue
  extended q out = record q { buffer = out.0; push_count = add_u32 out.1 (pop_count q) }

  len-extended :
      (q : Queue) (more : List ℕ) (out : List ℕ × ℕ)
      → IsValid k q
      → len q + length more ≤ 2 ^ k
      → Extended q.buffer q.head (len q) more out
      → len (extended q out) ≡ len q + length more
  len-extended q more out v le e = omega (arith, e.stop, cap_small k small)

  extended-IsValid :
      (q : Queue) (more : List ℕ) (out : List ℕ × ℕ)
      → IsValid k q
      → len q + length more ≤ 2 ^ k
      → Extended q.buffer q.head (len q) more out
      → IsValid k (extended q out)
  extended-IsValid q more out v le e = record {
    room = e.room ∙ v.room;
    pushes = omega arith;
    packed = v.packed;
    settled = v.settled;
    fits = omega (arith, len-extended q more out v le e);
  }

  -- `extend` on a valid queue puts the first items given, in order, behind those in the queue: all, or
  -- as many as there is room for; the others are left out.
  extend_refines :
      (q : Queue) (xs : List ℕ)
      → IsValid k q
      → let q' = extend (2 ^ k) q xs in
        IsValid k q' × (items k small q' ≡ items k small q ++ take (2 ^ k - len q) xs)
  unfolding extend
  extend_refines q xs v =
      let out = extend_from (2 ^ k) q.buffer (tail q) (add_u32 q.head (2 ^ k)) xs in
      let more = take (2 ^ k - len q) xs in
      let loop = extend_from-Extended q.buffer q.head (len q) xs (omega (arith, v.room)) v.fits in
      let start : place q.head (len q) ≡ tail q = omega (arith, cap_small k small) in
      let e : Extended q.buffer q.head (len q) more out =
        subst
          (λ p.
            Extended q.buffer q.head (len q) more
              (extend_from (2 ^ k) q.buffer p (add_u32 q.head (2 ^ k)) xs))
          start loop in
      let le : len q + length more ≤ 2 ^ k = omega (arith, length-take (2 ^ k - len q) xs) in
      (
        extended-IsValid q more out v le e,
        ap (window (2 ^ k) out.0 q.head) (len-extended q more out v le e) ∙ e.contents,
      )
