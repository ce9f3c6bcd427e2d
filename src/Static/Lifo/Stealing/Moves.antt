-- ===== src/Static/Lifo/Stealing/Moves.antt =====
-- Each access of the queue of async/src/no_alloc/lifo.rs against the atomic steal.
use uefi_async.Base.{
  ℕ, ◌+◌, ◌%◌, ◌^◌, ◌≤◌, ◌<◌, ◌≡◌, ◌⊎◌, inl, inr, sym, ap, ap₂, ◌∙◌, subst, List, [], ◌∷◌, ◌++◌,
  Option, none, some, arith, length, add_u32, length-append,
}
use uefi_async.Static.Lifo.{Queue, Result, ok, err, booked, tail, index, push, pop}
use uefi_async.Static.Lifo.Deque
use uefi_async.Static.Lifo.Window.{window, window_write, wrap_mod}
use uefi_async.Static.Lifo.Refine.{
  IsValid, len, items, tail_index, length-items, push_refines, pop_refines,
}
use uefi_async.Static.Lifo.Stealing.{Theft, Shared, push_item, pushed_as, popped_as}
use uefi_async.Static.Lifo.Stealing.Atomic.{Spec, pushed_to, popped_to, Careful}
use uefi_async.Static.Lifo.Stealing.Virtual.{virtual, pop-virtual, push-virtual, push-buffer}

module _ (k : ℕ) (small : k < 32) where
  -- A theft that has booked `held` and copied `copied` of them.
  pub record Holds (q : Queue) (t : Theft) (held : List ℕ) (copied : ℕ) : Type 0 where
    pub from : t.old_head ≡ q.head
    pub to : t.new_head ≡ booked q
    pub span : add_u32 q.head t.count ≡ booked q
    pub many : t.count ≡ length held
    pub pos : 0 < t.count
    pub done : t.offset ≡ copied
    pub left : ℕ
    pub sum : copied + left ≡ t.count
    pub contents : t.loot ++ window (2 ^ k) q.buffer (q.head + copied) left ≡ held

  abbrev pub Held : Queue → Option Theft → List ℕ → ℕ → Type 0
  Held q none held copied = (held ≡ []) × (copied ≡ 0) × (q.head ≡ booked q)
  Held q (some t) held copied = Holds q t held copied

  pub record Implements (s : Shared) (a : Spec) : Type 0 where
    pub valid : IsValid k (virtual s.queue)
    pub deque : items k small (virtual s.queue) ≡ a.deque
    pub fits : length a.deque + length a.held ≤ 2 ^ k
    pub theft : Held s.queue s.theft a.held a.copied
    pub stolen : s.stolen ≡ a.stolen
    pub popped : s.popped ≡ a.popped
    pub refused : s.refused ≡ a.refused

  -- The parts of the queue that a theft sees, unchanged.
  Held-frame :
      (q q' : Queue) (o : Option Theft) (held : List ℕ) (copied : ℕ)
      → q'.buffer ≡ q.buffer
      → q'.head ≡ q.head
      → booked q' ≡ booked q
      → Held q o held copied
      → Held q' o held copied
  Held-frame q q' none held copied b h e t = (t.0, t.1, h ∙ t.2 ∙ sym e)
  Held-frame q q' (some t) held copied b h e g = record {
    from = g.from ∙ sym h;
    to = g.to ∙ sym e;
    span = ap (λ i. add_u32 i t.count) h ∙ g.span ∙ sym e;
    many = g.many;
    pos = g.pos;
    done = g.done;
    left = g.left;
    sum = g.sum;
    contents = ap₂ (λ l i. t.loot ++ window (2 ^ k) l (i + copied) g.left) b h ∙ g.contents;
  }

  length-deque : (s : Shared) (a : Spec) → Implements s a → length a.deque ≡ len (virtual s.queue)
  length-deque s a h = ap length (sym h.deque) ∙ length-items k small (virtual s.queue)

  Deque-pop-short : (xs : List ℕ) → length (Deque.pop xs).1 ≤ length xs
  unfolding Deque.pop
  Deque-pop-short [] = omega arith
  Deque-pop-short (x ∷ []) = omega arith
  Deque-pop-short (x ∷ y ∷ xs) = omega (arith, Deque-pop-short (y ∷ xs))

  pub pop-Implements :
      (s : Shared) (a : Spec)
      → Implements s a
      → Implements (popped_as (2 ^ k) s (pop (2 ^ k) s.queue)) (popped_to a (Deque.pop a.deque))
  unfolding popped_as popped_to
  pop-Implements s a h =
      let (v, e) = pop_refines k small (virtual s.queue) h.valid in
      let (r, q, b, hd, bk) = pop-virtual (2 ^ k) s.queue h.valid.packed in
      let e' = e ∙ ap Deque.pop h.deque in
      record {
        valid = subst (IsValid k) q v;
        deque = ap (items k small) (sym q) ∙ ap (λ p. p.1) e';
        fits = omega (arith, h.fits, Deque-pop-short a.deque);
        theft = Held-frame s.queue _ s.theft a.held a.copied b hd bk h.theft;
        stolen = h.stolen;
        popped = ap₂ ◌∷◌ (sym r ∙ ap (λ p. p.0) e') h.popped;
        refused = h.refused;
      }

  -- A write behind the deque is not seen by a theft, if there is room behind what it holds.
  push-Holds :
      (q : Queue) (x : ℕ) (t : Theft) (held : List ℕ) (copied : ℕ)
      → IsValid k (virtual q)
      → len (virtual q) + length held < 2 ^ k
      → Holds q t held copied
      → Holds (push (2 ^ k) q x).1 t held copied
  push-Holds q x t held copied v room g =
      let (r, e, hd, bk) = push-virtual (2 ^ k) q x in
      let place : index (2 ^ k) (tail q) ≡ (q.head + copied + (g.left + len (virtual q))) % 2 ^ k =
        tail_index k small (virtual q) v
        ∙ sym (wrap_mod k small (booked q + len (virtual q)))
        ∙ ap (λ p. p % 2 ^ k) {x = (booked q + len (virtual q)) % 2 ^ 32}
            {y = (q.head + copied + (g.left + len (virtual q))) % 2 ^ 32}
            (omega (arith, g.span, g.sum))
        ∙ wrap_mod k small (q.head + copied + (g.left + len (virtual q))) in
      let same =
        ap (λ l. window (2 ^ k) l (q.head + copied) g.left)
          (push-buffer (2 ^ k) q x (omega (arith, room)))
        ∙ window_write (2 ^ k) q.buffer x (q.head + copied) (g.left + len (virtual q)) g.left
            (index (2 ^ k) (tail q)) place (omega arith) (omega (arith, room, g.sum, g.many)) in
      record {
        from = g.from ∙ sym hd;
        to = g.to ∙ sym bk;
        span = ap (λ i. add_u32 i t.count) hd ∙ g.span ∙ sym bk;
        many = g.many;
        pos = g.pos;
        done = g.done;
        left = g.left;
        sum = g.sum;
        contents =
            ap (λ i. t.loot ++ window (2 ^ k) (push (2 ^ k) q x).1.buffer (i + copied) g.left) hd
            ∙ ap (λ l. t.loot ++ l) same
            ∙ g.contents;
      }

  push-Held :
      (q : Queue) (x : ℕ) (o : Option Theft) (held : List ℕ) (copied : ℕ)
      → IsValid k (virtual q)
      → (held ≡ []) ⊎ (len (virtual q) + length held < 2 ^ k)
      → Held q o held copied
      → Held (push (2 ^ k) q x).1 o held copied
  push-Held q x none held copied v careful h =
      let (r, e, hd, bk) = push-virtual (2 ^ k) q x in (h.0, h.1, hd ∙ h.2 ∙ sym bk)
  push-Held q x (some t) held copied v (inl none_held) h =
      absurd (omega (arith, h.many, h.pos, ap length none_held))
  push-Held q x (some t) held copied v (inr room) h = push-Holds q x t held copied v room h

  Deque-push-short : (xs : List ℕ) (x : ℕ) → length (Deque.push (2 ^ k) xs x).1 ≤ length xs + 1
  unfolding Deque.push
  Deque-push-short xs x = ground (arith, length-append xs (x ∷ []))

  pub push-Implements :
      (s : Shared) (a : Spec) (x : ℕ)
      → Careful (2 ^ k) (push_item x) a
      → Implements s a
      → Implements
          (pushed_as (2 ^ k) s (push (2 ^ k) s.queue x))
          (pushed_to a (Deque.push (2 ^ k) a.deque x))
  unfolding pushed_as pushed_to
  push-Implements s a x careful h =
      go (push (2 ^ k) s.queue x) (Deque.push (2 ^ k) a.deque x) (ap (λ p. p.0) e')
        (ap (λ l. l) (ap (λ p. p.1) e')) (subst (IsValid k) q v)
        (push-Held s.queue x s.theft a.held a.copied h.valid careful' h.theft) small_enough
    where
      v : IsValid k (push (2 ^ k) (virtual s.queue) x).1
      v = (push_refines k small (virtual s.queue) x h.valid).0

      q : (push (2 ^ k) (virtual s.queue) x).1 ≡ virtual (push (2 ^ k) s.queue x).1
      q = (push-virtual (2 ^ k) s.queue x).1

      e' :
          ((push (2 ^ k) s.queue x).0, items k small (virtual (push (2 ^ k) s.queue x).1))
          ≡ Deque.push (2 ^ k) a.deque x
      e' =
          ap₂ (λ r l. (r, l)) (sym (push-virtual (2 ^ k) s.queue x).0) (ap (items k small) (sym q))
          ∙ (push_refines k small (virtual s.queue) x h.valid).1
          ∙ ap (λ l. Deque.push (2 ^ k) l x) h.deque

      careful' : (a.held ≡ []) ⊎ (len (virtual s.queue) + length a.held < 2 ^ k)
      careful' = elim careful [
        | inl e ↦ inl e
        | inr room ↦ inr (omega (arith, room, length-deque s a h))
      ]

      small_enough : length (Deque.push (2 ^ k) a.deque x).1 + length a.held ≤ 2 ^ k
      small_enough = elim careful [
        | inl e ↦ omega (
          arith,
          ap length e,
          ap length (ap (λ p. p.1) e'),
          length-items k small (virtual (push (2 ^ k) s.queue x).1),
          (subst (IsValid k) q v).fits,
        )
        | inr room ↦ omega (arith, room, Deque-push-short a.deque x)
      ]

      go :
          (p : Result ℕ (Unit {0}) × Queue) (d : Result ℕ (Unit {0}) × List ℕ)
          → p.0 ≡ d.0
          → items k small (virtual p.1) ≡ d.1
          → IsValid k (virtual p.1)
          → Held p.1 s.theft a.held a.copied
          → length d.1 + length a.held ≤ 2 ^ k
          → Implements (pushed_as (2 ^ k) s p) (pushed_to a d)
      go (ok u, q) (ok w, xs) r l v held le = record {
        valid = v;
        deque = l;
        fits = le;
        theft = held;
        stolen = h.stolen;
        popped = h.popped;
        refused = h.refused;
      }
      go (err y, q) (err z, xs) r l v held le = record {
        valid = v;
        deque = l;
        fits = le;
        theft = held;
        stolen = h.stolen;
        popped = h.popped;
        refused = ap₂ ◌∷◌ (ground (arith, r)) h.refused;
      }
      go (ok u, q) (err z, xs) r l v held le = absurd (ground (arith, r))
      go (err y, q) (ok w, xs) r l v held le = absurd (ground (arith, r))
