-- ===== src/Static/Lifo/Thieves.antt =====
-- Thieves of the queue of async/src/no_alloc/lifo.rs with no interference: `book_items`, and the items
-- that it books, taken from the front and copied to the end of another queue.
use uefi_async.Base.{
  ℕ, zero, suc, ◌+◌, ◌*◌, ◌%◌, ◌^◌, ◌≤◌, ◌<◌, ◌≡◌, refl, sym, ap, ◌∙◌, List, [], ◌∷◌, ◌++◌, arith,
  ◌==◌, if◌then◌else◌, length, get_or, set, min, length-set, add_u32, append_assoc, append-nil,
}
use uefi_async.Static.Lifo.{
  Queue, ok, err, empty, pop_count, tail, index, read_at, write_at, book_items, transfer,
}
use uefi_async.Static.Lifo.Window.{
  at, window, window_mod, window-append, window_push, cap_small, index_wrap, wrap_mod,
}
use uefi_async.Static.Lifo.Refine.{IsValid, len, items}

-- How many items a thief books: what `count_fn` asks for, cut to its limit and to what is there.
abbrev pub share : Queue → (ℕ → ℕ) → ℕ → ℕ
share q count_fn max_count = min (min (count_fn (len q)) max_count % 2 ^ 32) (len q)

module _ (k : ℕ) (small : k < 32) where
  -- A booking of `n` items.
  abbrev pub booking : Queue → ℕ → Queue
  booking q n = record q { pop_count_and_head = pop_count q * 2 ^ 32 + add_u32 q.head n }

  -- A booking in a valid queue is refused only if there is nothing to take.
  pub book_items_lem :
      (q : Queue) (count_fn : ℕ → ℕ) (max_count : ℕ)
      → IsValid k q
      → let n = share q count_fn max_count in
        book_items (2 ^ k) q count_fn max_count
        ≡ (if n == 0 then (err empty, q) else (ok (q.head, add_u32 q.head n, n), booking q n))
  unfolding book_items
  book_items_lem q count_fn max_count v = rw (v.settled) (ground arith)

  -- The queue after the `n` oldest items have gone.
  abbrev pub robbed : Queue → ℕ → Queue
  robbed q n = record (booking q n) { head = add_u32 q.head n }

  len-robbed : (q : Queue) (n : ℕ) → IsValid k q → n ≤ len q → len (robbed q n) + n ≡ len q
  len-robbed q n v le = omega (arith, cap_small k small)

  pub robbed-IsValid : (q : Queue) (n : ℕ) → IsValid k q → n ≤ len q → IsValid k (robbed q n)
  robbed-IsValid q n v le = record {
    room = v.room;
    pushes = v.pushes;
    packed = omega arith;
    settled = omega arith;
    fits = omega (arith, len-robbed q n v le);
  }

  pub items-robbed :
      (q : Queue) (n : ℕ)
      → IsValid k q
      → n ≤ len q
      → items k small q ≡ window (2 ^ k) q.buffer q.head n ++ items k small (robbed q n)
  items-robbed q n v le =
      ap (window (2 ^ k) q.buffer q.head) {x = len q} {y = n + len (robbed q n)}
        (omega (arith, len-robbed q n v le))
      ∙ window-append (2 ^ k) q.buffer q.head n (len (robbed q n))
      ∙ ap (λ ys. window (2 ^ k) q.buffer q.head n ++ ys)
          (window_mod (2 ^ k) q.buffer (q.head + n) (add_u32 q.head n) (len (robbed q n))
            (sym (wrap_mod k small (q.head + n))))

  length-transfer :
      (source : List ℕ) (from : ℕ) (dest : List ℕ) (to i n : ℕ)
      → length (transfer (2 ^ k) source from dest to i n) ≡ length dest
  unfolding transfer write_at
  length-transfer source from dest to i zero = refl
  length-transfer source from dest to i (suc n) =
      length-transfer source from
        (write_at (2 ^ k) dest (add_u32 to i) (read_at (2 ^ k) source (add_u32 from i))) to (i + 1)
        n
      ∙ length-set dest (index (2 ^ k) (add_u32 to i)) _

  -- The copying loop appends what it copies to the items of the destination.
  window-transfer :
      (source : List ℕ) (from : ℕ) (dest : List ℕ) (to i n h m : ℕ)
      → 2 ^ k ≤ length dest
      → m + n ≤ 2 ^ k
      → add_u32 to i ≡ (h + m) % 2 ^ 32
      → window (2 ^ k) (transfer (2 ^ k) source from dest to i n) h (m + n)
        ≡ window (2 ^ k) dest h m ++ window (2 ^ k) source (from + i) n
  unfolding transfer write_at read_at
  window-transfer source from dest to i zero h m long le e =
      ap (window (2 ^ k) dest h) {x = m + 0} {y = m} (omega arith)
      ∙ sym (append-nil (window (2 ^ k) dest h m))
  window-transfer source from dest to i (suc n) h m long le e =
      ap (window (2 ^ k) (transfer (2 ^ k) source from dest' to (i + 1) n) h) {x = m + suc n}
        {y = m + 1 + n} (omega arith)
      ∙ window-transfer source from dest' to (i + 1) n h (m + 1) long' (omega arith) (omega arith)
      ∙ ap (λ ys. ys ++ window (2 ^ k) source (from + (i + 1)) n)
          (window_push (2 ^ k) dest value h m here long here_lem (omega arith))
      ∙ append_assoc (window (2 ^ k) dest h m) (value ∷ []) _
      ∙ ap (λ y. window (2 ^ k) dest h m ++ y ∷ window (2 ^ k) source (from + (i + 1)) n)
          (ap (λ j. get_or source j 0) (index_wrap k small (from + i)))
      ∙ ap
          (λ p. window (2 ^ k) dest h m ++ at (2 ^ k) source (from + i) ∷ window (2 ^ k) source p n)
          {x = from + (i + 1)} {y = suc (from + i)} (omega arith)
    where
      here : ℕ
      here = index (2 ^ k) (add_u32 to i)

      value : ℕ
      value = read_at (2 ^ k) source (add_u32 from i)

      dest' : List ℕ
      dest' = set dest here value

      here_lem : here ≡ (h + m) % 2 ^ k
      here_lem = ap (index (2 ^ k)) e ∙ index_wrap k small (h + m)

      long' : 2 ^ k ≤ length dest'
      long' = omega (arith, length-set dest here value)

  -- The queue to which the `n` items from position `from` of another one have been copied.
  abbrev pub filled : Queue → Queue → ℕ → ℕ → Queue
  filled source dest from n = record dest {
    buffer = transfer (2 ^ k) source.buffer from dest.buffer (tail dest) 0 n;
    push_count = add_u32 dest.push_count n;
  }

  len-filled :
      (source dest : Queue) (from n : ℕ)
      → IsValid k dest
      → len dest + n ≤ 2 ^ k
      → len (filled source dest from n) ≡ len dest + n
  len-filled source dest from n v le = omega (arith, cap_small k small)

  pub filled-IsValid :
      (source dest : Queue) (from n : ℕ)
      → IsValid k dest
      → len dest + n ≤ 2 ^ k
      → IsValid k (filled source dest from n)
  filled-IsValid source dest from n v le = record {
    room = length-transfer source.buffer from dest.buffer (tail dest) 0 n ∙ v.room;
    pushes = omega arith;
    packed = v.packed;
    settled = v.settled;
    fits = omega (arith, len-filled source dest from n v le);
  }

  pub items-filled :
      (source dest : Queue) (from n : ℕ)
      → IsValid k dest
      → len dest + n ≤ 2 ^ k
      → items k small (filled source dest from n)
        ≡ items k small dest ++ window (2 ^ k) source.buffer from n
  items-filled source dest from n v le =
      ap (window (2 ^ k) (filled source dest from n).buffer dest.head)
        (len-filled source dest from n v le)
      ∙ window-transfer source.buffer from dest.buffer (tail dest) 0 n dest.head (len dest)
          (omega arith) le (omega (arith, cap_small k small))
      ∙ ap (λ p. items k small dest ++ window (2 ^ k) source.buffer p n) {x = from + 0} {y = from}
          (omega arith)

  -- What a steal does to the two lists: from the front of one, `moved` goes to the end of the other
  -- and `taken` to the thief, in order.
  pub record Moved (source dest source' dest' : Queue) (taken : List ℕ) (count : ℕ) : Type 0 where
    pub source_valid : IsValid k source'
    pub dest_valid : IsValid k dest'
    pub moved : List ℕ
    pub many : length moved ≡ count
    pub from_front : items k small source ≡ (moved ++ taken) ++ items k small source'
    pub to_end : items k small dest' ≡ items k small dest ++ moved
