-- ===== src/Static/Lifo/Stealing/Endings.antt =====
-- The items of a steal read one after another, and its end (async/src/no_alloc/lifo.rs).
use uefi_async.Base.{
  ℕ, zero, suc, ◌+◌, ◌^◌, ◌<◌, ◌≡◌, refl, sym, ap, ap₂, ◌∙◌, subst, List, [], ◌∷◌, ◌++◌, Option,
  none, some, arith, length, get_or, add_u32, ◌==◌, append_assoc, append-nil, true, false,
}
use uefi_async.Static.Lifo.{Queue, read_at}
use uefi_async.Static.Lifo.Window.{at, window, index_wrap}
use uefi_async.Static.Lifo.Stealing.{
  Theft, Shared, copy, publish, copy_one, publish_head, copy_as, publish_as,
}
use uefi_async.Static.Lifo.Stealing.Atomic.{Spec, spec_step}
use uefi_async.Static.Lifo.Stealing.Moves.{Holds, Held, Implements}

module _ (k : ℕ) (small : k < 32) where
  copy_one-done : (q : Queue) (t : Theft) → t.offset ≡ t.count → copy_one (2 ^ k) q t ≡ t
  unfolding copy_one
  copy_one-done q t e = ground (arith, e)

  copy_one-more :
      (q : Queue) (t : Theft)
      → t.offset < t.count
      → copy_one (2 ^ k) q t ≡ record t {
        offset = t.offset + 1;
        loot = t.loot ++ read_at (2 ^ k) q.buffer (add_u32 t.old_head t.offset) ∷ [];
      }
  unfolding copy_one
  copy_one-more q t lt = ground (arith, lt)

  copied-Holds :
      (q : Queue) (t : Theft) (held : List ℕ) (copied left : ℕ)
      → (g : Holds k small q t held copied) → g.left ≡ suc left
      → Holds k small q (copy_one (2 ^ k) q t) held (copied + 1)
  unfolding read_at
  copied-Holds q t held copied left g l =
      let here : read_at (2 ^ k) q.buffer (add_u32 t.old_head t.offset)
          ≡ at (2 ^ k) q.buffer (q.head + copied) =
        ap₂ (λ i j. read_at (2 ^ k) q.buffer (add_u32 i j)) g.from g.done
        ∙ ap (λ i. get_or q.buffer i 0) (index_wrap k small (q.head + copied)) in
      rw (copy_one-more q t (omega (arith, g.done, g.sum, l))) (record {
        from = g.from;
        to = g.to;
        span = g.span;
        many = g.many;
        pos = g.pos;
        done = ap (λ i. i + 1) g.done;
        left = left;
        sum = omega (arith, g.sum, l);
        contents =
            append_assoc t.loot (read_at (2 ^ k) q.buffer (add_u32 t.old_head t.offset) ∷ [])
              (window (2 ^ k) q.buffer (q.head + (copied + 1)) left)
            ∙ ap (λ x. t.loot ++ x ∷ window (2 ^ k) q.buffer (q.head + (copied + 1)) left) here
            ∙ ap
                (λ p.
                  t.loot ++ at (2 ^ k) q.buffer (q.head + copied) ∷ window (2 ^ k) q.buffer p left)
                {x = q.head + (copied + 1)} {y = suc (q.head + copied)} (omega arith)
            ∙ ap (λ n. t.loot ++ window (2 ^ k) q.buffer (q.head + copied) n) (sym l)
            ∙ g.contents;
      })

  pub copy-Implements :
      (s : Shared) (a : Spec)
      → (o : Option Theft) → s.theft ≡ o
      → Held k small s.queue o a.held a.copied
      → Implements k small s a
      → Implements k small (copy_as (2 ^ k) s o) (spec_step (2 ^ k) copy a)
  unfolding copy_as spec_step
  copy-Implements s a none e (none_held, copied, settled) h =
      let same : (a.copied == length a.held) ≡ true = ground (arith, copied, ap length none_held) in
      rw same h
  copy-Implements s a (some t) e g h = go g.left refl
    where
      go :
          (left : ℕ)
          → g.left ≡ left
          → Implements k small (copy_as (2 ^ k) s (some t)) (spec_step (2 ^ k) copy a)
      go zero l =
          let over : (a.copied == length a.held) ≡ true = ground (arith, g.sum, g.many, l) in
          rw (over, copy_one-done s.queue t (omega (arith, g.done, g.sum, l)))
            (record {
              valid = h.valid;
              deque = h.deque;
              fits = h.fits;
              theft = g;
              stolen = h.stolen;
              popped = h.popped;
              refused = h.refused;
            })
      go (suc left) l =
          let more : (a.copied == length a.held) ≡ false = ground (arith, g.sum, g.many, l) in
          rw more (record {
            valid = h.valid;
            deque = h.deque;
            fits = h.fits;
            theft = copied-Holds s.queue t a.held a.copied left g l;
            stolen = h.stolen;
            popped = h.popped;
            refused = h.refused;
          })

  publish_done :
      (s : Shared) (t : Theft)
      → t.offset ≡ t.count
      → publish_head (2 ^ k) s t ≡ record s {
        queue = record s.queue { head = t.new_head };
        theft = none;
        stolen = s.stolen ++ t.loot;
      }
  unfolding publish_head
  publish_done s t e = ground (arith, e)

  publish_later : (s : Shared) (t : Theft) → t.offset < t.count → publish_head (2 ^ k) s t ≡ s
  unfolding publish_head
  publish_later s t lt = ground (arith, lt)

  pub publish-Implements :
      (s : Shared) (a : Spec)
      → (o : Option Theft) → s.theft ≡ o
      → Held k small s.queue o a.held a.copied
      → Implements k small s a
      → Implements k small (publish_as (2 ^ k) s o) (spec_step (2 ^ k) publish a)
  unfolding publish_as spec_step
  publish-Implements s a none e (none_held, copied, settled) h =
      let same : (a.copied == length a.held) ≡ true = ground (arith, copied, ap length none_held) in
      rw same (record {
        valid = h.valid;
        deque = h.deque;
        fits = omega (arith, h.fits);
        theft = subst (λ o. Held k small s.queue o [] 0) (sym e) (refl, refl, settled);
        stolen = h.stolen ∙ sym (append-nil a.stolen) ∙ ap (λ l. a.stolen ++ l) (sym none_held);
        popped = h.popped;
        refused = h.refused;
      })
  publish-Implements s a (some t) e g h = go g.left refl
    where
      go :
          (left : ℕ)
          → g.left ≡ left
          → Implements k small (publish_as (2 ^ k) s (some t)) (spec_step (2 ^ k) publish a)
      go zero l =
          let over : (a.copied == length a.held) ≡ true = ground (arith, g.sum, g.many, l) in
          let all_copied : t.loot ≡ a.held =
            sym (append-nil t.loot)
            ∙ ap (λ n. t.loot ++ window (2 ^ k) s.queue.buffer (s.queue.head + a.copied) n) (sym l)
            ∙ g.contents in
          rw (over, publish_done s t (omega (arith, g.done, g.sum, l)))
            (record {
              valid = h.valid;
              deque = h.deque;
              fits = omega (arith, h.fits);
              theft = (refl, refl, g.to);
              stolen = ap₂ ◌++◌ h.stolen all_copied;
              popped = h.popped;
              refused = h.refused;
            })
      go (suc left) l =
          let more : (a.copied == length a.held) ≡ false = ground (arith, g.sum, g.many, l) in
          rw (more, publish_later s t (omega (arith, g.done, g.sum, l))) h
