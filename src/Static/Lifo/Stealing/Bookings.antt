-- ===== src/Static/Lifo/Stealing/Bookings.antt =====
-- A thief of the queue of async/src/no_alloc/lifo.rs from its booking to its store of the head.
use uefi_async.Base.{
  ℕ, zero, suc, ◌+◌, ◌%◌, ◌^◌, ◌≤◌, ◌<◌, ◌≡◌, ◌≢◌, refl, sym, ap, ◌∙◌, subst, List, [], ◌∷◌, ◌++◌,
  Option, none, some, arith, length, min, add_u32, ◌==◌, if◌then◌else◌, take, drop, length-append,
  false,
}
use uefi_async.Static.Lifo.{Queue, ok, err, empty, busy, booked, book_items}
use uefi_async.Static.Lifo.Window.{window, length-window, cap_small}
use uefi_async.Static.Lifo.Refine.{IsValid, len, items, length-items}
use uefi_async.Static.Lifo.Thieves.{
  share, booking, book_items_lem, robbed, robbed-IsValid, items-robbed,
}
use uefi_async.Static.Lifo.Stealing.{Theft, Shared, booked_as}
use uefi_async.Static.Lifo.Stealing.Atomic.{Spec, share_of, book_share}
use uefi_async.Static.Lifo.Stealing.Virtual.{virtual, take-append, drop-append}
use uefi_async.Static.Lifo.Stealing.Moves.{Held, Implements}

module _ (k : ℕ) (small : k < 32) where
  busy_theft :
      (q : Queue) (count_fn : ℕ → ℕ) (max_count : ℕ)
      → q.head ≢ booked q
      → book_items (2 ^ k) q count_fn max_count ≡ (err busy, q)
  unfolding book_items
  busy_theft q count_fn max_count other = ground (arith, other)

  book_share-busy : (a : Spec) (n : ℕ) → 0 < length a.held → book_share a a.held n ≡ a
  unfolding book_share
  book_share-busy a n pos = go a.held pos
    where
      go : (held : List ℕ) → 0 < length held → book_share a held n ≡ a
      go [] pos = absurd (omega arith)
      go (x ∷ xs) pos = refl

  -- The deque split by a booking.
  booked_front :
      (q : Queue) (d : List ℕ) (n : ℕ)
      → IsValid k q
      → n ≤ len q
      → items k small q ≡ d
      → (window (2 ^ k) q.buffer q.head n ≡ take n d)
        × (items k small (robbed k small q n) ≡ drop n d)
  booked_front q d n v le e =
      let front = window (2 ^ k) q.buffer q.head n in
      let back = items k small (robbed k small q n) in
      let split = sym e ∙ items-robbed k small q n v le in
      let size = length-window (2 ^ k) q.buffer q.head n in
      (
        sym (take-append front back)
            ∙ ap (λ m. take m (front ++ back)) size
            ∙ ap (take n) (sym split),
        sym (drop-append front back)
            ∙ ap (λ m. drop m (front ++ back)) size
            ∙ ap (drop n) (sym split),
      )

  -- The state and the specification after a booking of `n` items.
  abbrev booked_shared : Shared → ℕ → Shared
  booked_shared s n = record s {
    queue = booking k small s.queue n;
    theft = some (record {
      old_head = s.queue.head;
      new_head = add_u32 s.queue.head n;
      count = n;
      offset = 0;
      loot = [];
    });
  }

  book-Implements-some :
      (s : Shared) (a : Spec) (n : ℕ)
      → IsValid k s.queue
      → items k small s.queue ≡ a.deque
      → 0 < n
      → n ≤ len s.queue
      → Implements k small s a
      → Implements k small
          (booked_shared s n)
          (record a { deque = drop n a.deque; held = take n a.deque; copied = 0 })
  book-Implements-some s a n v e pos le h =
      let q = booking k small s.queue n in
      let to : add_u32 s.queue.head n ≡ booked q = omega arith in
      let same : robbed k small s.queue n ≡ virtual q = ap (λ i. record q { head = i }) to in
      let (front, back) = booked_front s.queue a.deque n v le e in
      let many : n ≡ length (take n a.deque) =
        sym (length-window (2 ^ k) s.queue.buffer s.queue.head n) ∙ ap length front in
      let total : length a.deque ≡ len s.queue = ap length (sym e) ∙ length-items k small s.queue in
      let rest : length (drop n a.deque) + n ≡ len s.queue = omega (
        arith,
        ap length back,
        length-items k small (robbed k small s.queue n),
        ap length (items-robbed k small s.queue n v le),
        length-append (window (2 ^ k) s.queue.buffer s.queue.head n)
            (items k small (robbed k small s.queue n)),
        length-window (2 ^ k) s.queue.buffer s.queue.head n,
        length-items k small s.queue,
      ) in
      record {
        valid = subst (IsValid k) same (robbed-IsValid k small s.queue n v le);
        deque = ap (items k small) (sym same) ∙ back;
        fits = omega (arith, rest, many, v.fits);
        theft = record {
          from = refl;
          to = to;
          span = to;
          many = many;
          pos = pos;
          done = refl;
          left = n;
          sum = omega arith;
          contents =
              ap (λ i. window (2 ^ k) s.queue.buffer i n) {x = s.queue.head + 0} {y = s.queue.head}
                (omega arith)
              ∙ front;
        };
        stolen = h.stolen;
        popped = h.popped;
        refused = h.refused;
      }

  book-Implements-none :
      (s : Shared) (a : Spec) (count_fn : ℕ → ℕ) (max_count : ℕ)
      → a.held ≡ []
      → a.copied ≡ 0
      → IsValid k s.queue
      → items k small s.queue ≡ a.deque
      → Implements k small s a
      → Implements k small
          (booked_as (2 ^ k) s (book_items (2 ^ k) s.queue count_fn max_count))
          (book_share a [] (share_of a.deque count_fn max_count))
  unfolding booked_as book_share share_of
  book-Implements-none s a count_fn max_count held copied v e h =
      let n = share s.queue count_fn max_count in
      let total : length a.deque ≡ len s.queue = ap length (sym e) ∙ length-items k small s.queue in
      let shared : share_of a.deque count_fn max_count ≡ n =
        ap (λ m. min (min (count_fn m) max_count % 2 ^ 32) m) total in
      subst
        (λ m.
          Implements k small (booked_as (2 ^ k) s (book_items (2 ^ k) s.queue count_fn max_count))
            (book_share a [] m))
        (sym shared)
        (subst (λ b. Implements k small (booked_as (2 ^ k) s b) (book_share a [] n))
          (sym (book_items_lem k small s.queue count_fn max_count v)) (go n (omega arith)))
    where
      go :
          (n : ℕ)
          → n ≤ len s.queue
          → Implements k small
              (booked_as (2 ^ k) s (
                if n == 0
                then (err empty, s.queue)
                else (ok (s.queue.head, add_u32 s.queue.head n, n), booking k small s.queue n)))
              (book_share a [] n)
      go zero le = record {
        valid = h.valid;
        deque = h.deque;
        fits = omega (arith, h.fits);
        theft =
            subst (λ c. Held k small s.queue s.theft [] c) copied
              (subst (λ x. Held k small s.queue s.theft x a.copied) held h.theft);
        stolen = h.stolen;
        popped = h.popped;
        refused = h.refused;
      }
      go (suc n) le =
          let some_booked : (suc n == 0) ≡ false = ground arith in
          rw some_booked (book-Implements-some s a (suc n) v e (omega arith) le h)

  settled_queue : (q : Queue) → IsValid k (virtual q) → q.head ≡ booked q → IsValid k q
  settled_queue q v e = record {
    room = v.room;
    pushes = v.pushes;
    packed = v.packed;
    settled = sym e;
    fits = omega (arith, v.fits, e);
  }

  pub book-Implements :
      (s : Shared) (a : Spec) (count_fn : ℕ → ℕ) (max_count : ℕ)
      → (o : Option Theft) → s.theft ≡ o
      → Held k small s.queue o a.held a.copied
      → Implements k small s a
      → Implements k small
          (booked_as (2 ^ k) s (book_items (2 ^ k) s.queue count_fn max_count))
          (book_share a a.held (share_of a.deque count_fn max_count))
  unfolding booked_as
  book-Implements s a count_fn max_count none e (none_held, copied, settled) h =
      let n = share_of a.deque count_fn max_count in
      let same : virtual s.queue ≡ s.queue =
        ap (λ i. record (s.queue) { head = i }) (sym settled) in
      subst
        (λ x.
          Implements k small (booked_as (2 ^ k) s (book_items (2 ^ k) s.queue count_fn max_count))
            (book_share a x n))
        (sym none_held)
        (book-Implements-none s a count_fn max_count none_held copied
          (settled_queue s.queue h.valid settled) (ap (items k small) (sym same) ∙ h.deque) h)
  book-Implements s a count_fn max_count (some t) e g h =
      let other : s.queue.head ≢ booked s.queue =
        λ same. omega (arith, same, g.span, g.pos, g.many, h.fits, cap_small k small) in
      let held : 0 < length a.held = omega (arith, g.many, g.pos) in
      let n = share_of a.deque count_fn max_count in
      rw (busy_theft s.queue count_fn max_count other)
        (subst (Implements k small s) (sym (book_share-busy a n held)) h)
