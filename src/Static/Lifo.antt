-- ===== src/Static/Lifo.antt =====
-- async/src/no_alloc/lifo.rs: the work-stealing queue. Here its methods run without interference,
-- one thread at a time, so each compare-exchange succeeds at its first try (and `compare_exchange_weak`
-- is repeated by its loop where it fails for no reason). `Lifo.Race` and `Lifo.Stealing` have a
-- steal in progress.
--
-- A `*mut TaskHeader` is a number. `N` is the parameter `cap`.
pub mod Window
pub mod Deque
pub mod Refine
pub mod Thieves
pub mod Steals
pub mod Drains
pub mod Extends
pub mod Race
pub mod Stealing
mod Tests
use Prim.Native.Nat.{bit_and}
pub use uefi_async.Base.{Result, ok, err}
use uefi_async.Base.{
  ℕ, zero, suc, ◌+◌, ◌-◌, ◌*◌, ◌/◌, ◌%◌, ◌^◌, min, List, [], ◌∷◌, Bool, true, false, Option, none,
  some, ltb, leb, ◌==◌, if◌then◌else◌, get_or, set, replicate, add_u32, sub_u32, sub_u64,
}

pub data StealError : Type 0 where
  empty busy : StealError

-- The halves of the word do not overlap, so `|` is `+`.
abbrev pub pack : ℕ → ℕ → ℕ
pack v1 v2 = v1 * 2 ^ 32 + v2

abbrev pub unpack : ℕ → ℕ × ℕ
unpack v = (v / 2 ^ 32, v % 2 ^ 32)

-- `Queue<N>`, with the fields of `StealerData` in it.
pub record Queue : Type 0 where
  pub push_count : ℕ  -- u32
  pub pop_count_and_head : ℕ  -- u64
  pub head : ℕ  -- u32
  pub buffer : List ℕ

abbrev pub null : ℕ
null = 0

-- The two halves of `pop_count_and_head`, and what the methods compute from them.
abbrev pub pop_count : Queue → ℕ
pop_count q = (unpack q.pop_count_and_head).0

abbrev pub booked : Queue → ℕ
booked q = (unpack q.pop_count_and_head).1

abbrev pub tail : Queue → ℕ
tail q = sub_u32 q.push_count (pop_count q)

module _ (cap : ℕ) where
  -- `Queue::new`
  unfoldable pub new : Queue
  new = record { push_count = 0; pop_count_and_head = 0; head = 0; buffer = replicate cap null }

  -- `position & Self::MASK`
  abbrev pub index : ℕ → ℕ
  index position = bit_and position (cap - 1)

  unfoldable pub read_at : List ℕ → ℕ → ℕ
  read_at buffer position = get_or buffer (index position) null

  unfoldable pub write_at : List ℕ → ℕ → ℕ → List ℕ
  write_at buffer position item = set buffer (index position) item

  -- `Worker::is_empty`
  unfoldable pub is_empty : Queue → Bool
  is_empty q = tail q == booked q

  -- `Worker::spare_capacity`
  unfoldable pub spare_capacity : Queue → ℕ
  spare_capacity q = sub_u64 cap (sub_u32 (tail q) q.head)

  -- `Worker::push`
  unfoldable pub push : Queue → ℕ → Result ℕ (Unit {0}) × Queue
  push q item = if leb cap (sub_u32 (tail q) (booked q)) then (err item, q) else (
    ok tt,
    record q { buffer = write_at q.buffer (tail q) item; push_count = add_u32 q.push_count 1 },
  )

  -- The `for` loop of `Worker::extend`: the buffer and the tail that it leaves.
  unfoldable pub extend_from : List ℕ → ℕ → ℕ → List ℕ → List ℕ × ℕ
  extend_from buffer tail max_tail [] = (buffer, tail)
  extend_from buffer tail max_tail (item ∷ items) = elim (tail == max_tail) [
    | true ↦ (buffer, tail)
    | false ↦ extend_from (write_at buffer tail item) (add_u32 tail 1) max_tail items
  ]

  -- `Worker::extend`
  unfoldable pub extend : Queue → List ℕ → Queue
  extend q items =
      let (buffer', tail') = extend_from q.buffer (tail q) (add_u32 q.head cap) items in
      record q { buffer = buffer'; push_count = add_u32 tail' (pop_count q) }

  -- `Worker::pop`
  unfoldable pub pop : Queue → Option ℕ × Queue
  pop q = if tail q == booked q then (none, q) else (
    some (read_at q.buffer (sub_u32 (tail q) 1)),
    record q { pop_count_and_head = pack (add_u32 (pop_count q) 1) (booked q) },
  )

  -- `Queue::book_items`: the old head, the new head and the count.
  unfoldable pub book_items : Queue → (ℕ → ℕ) → ℕ → Result StealError (ℕ × ℕ × ℕ) × Queue
  book_items q count_fn max_count =
      let head = booked q in
      let item_count = sub_u32 (tail q) head in
      let count = min (min (count_fn item_count) max_count % 2 ^ 32) item_count in
      let new_head = add_u32 head count in
      if q.head == head
      then (if item_count == 0 then (err empty, q) else if count == 0 then (err empty, q) else (
        ok (head, new_head, count),
        record q { pop_count_and_head = pack (pop_count q) new_head },
      ))
      else (err busy, q)

  -- `dest_free_capacity` of the two methods below.
  abbrev pub free_capacity : Queue → ℕ
  free_capacity dest = sub_u32 cap (sub_u32 (tail dest) dest.head)

  -- The copying loops of `steal` and `steal_and_pop`, from offset `i` on.
  unfoldable pub transfer : List ℕ → ℕ → List ℕ → ℕ → ℕ → ℕ → List ℕ
  transfer source from dest to i zero = dest
  transfer source from dest to i (suc n) =
      transfer source from (write_at dest (add_u32 to i) (read_at source (add_u32 from i))) to
        (i + 1) n

  -- `Stealer::steal` from `source` to `dest`: the number of items moved, and both queues.
  unfoldable pub steal : Queue → Queue → (ℕ → ℕ) → Result StealError ℕ × Queue × Queue
  steal source dest count_fn =
      let (booking, source') = book_items source count_fn (free_capacity dest) in
      elim booking [
        | err e ↦ (err e, source, dest)
        | ok (old_head, new_head, count) ↦ (
          ok count,
          record source' { head = new_head },
          record dest {
            buffer = transfer source.buffer old_head dest.buffer (tail dest) 0 count;
            push_count = add_u32 dest.push_count count;
          },
        )
      ]

  -- `Stealer::steal_and_pop`: the last item booked is returned, the others are moved.
  unfoldable pub steal_and_pop : Queue → Queue → (ℕ → ℕ) → Result StealError (ℕ × ℕ) × Queue × Queue
  steal_and_pop source dest count_fn =
      let (booking, source') = book_items source count_fn (add_u32 (free_capacity dest) 1) in
      elim booking [
        | err e ↦ (err e, source, dest)
        | ok (old_head, new_head, count) ↦ (
          ok (read_at source.buffer (add_u32 old_head (count - 1)), count - 1),
          record source' { head = new_head },
          record dest {
            buffer = transfer source.buffer old_head dest.buffer (tail dest) 0 (count - 1);
            push_count = add_u32 dest.push_count (count - 1);
          },
        )
      ]

  -- `Drain`: the positions still to be given out. `next` publishes the head with the last one.
  unfoldable pub drain_from : Queue → ℕ → ℕ → List ℕ
  drain_from q current zero = []
  drain_from q current (suc n) = read_at q.buffer current ∷ drain_from q (add_u32 current 1) n

  -- `Worker::drain`, its iterator run to the end (as its `Drop` does).
  unfoldable pub drain : Queue → (ℕ → ℕ) → Result StealError (List ℕ) × Queue
  drain q count_fn =
      let (booking, q') = book_items q count_fn (2 ^ 32 - 1) in
      elim booking [
        | err e ↦ (err e, q)
        | ok (old_head, new_head, count) ↦
            (ok (drain_from q' old_head count), record q' { head = new_head })
      ]

  -- `Worker::clear`: what the dropper is called on, and the queue.
  unfoldable pub cleared_with : Result StealError (List ℕ) × Queue → List ℕ × Queue
  cleared_with (err e, q) = ([], q)
  cleared_with (ok dropped, q) = (dropped, q)

  unfoldable pub clear : Queue → List ℕ × Queue
  clear q = cleared_with (drain q (λ count. count))
