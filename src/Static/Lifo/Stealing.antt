-- ===== src/Static/Lifo/Stealing.antt =====
-- The queue of async/src/no_alloc/lifo.rs with a steal in progress: the owner and other thieves come
-- between its accesses. `book_items` takes effect at its compare-exchange, which succeeds only if the
-- word has not changed since its last look (a `push_count` that it read earlier is a smaller
-- `count_fn`); then each item is read for itself, and the new head is stored. `loot` stands for what the
-- thief has copied to its own queue.
pub mod Atomic
pub mod Virtual
pub mod Moves
pub mod Bookings
pub mod Endings
pub mod Runs
mod Tests
use uefi_async.Base.{
  ℕ, zero, suc, ◌+◌, List, [], ◌∷◌, ◌++◌, Option, none, some, ltb, ◌==◌, if◌then◌else◌, add_u32,
}
use uefi_async.Static.Lifo.{Queue, Result, ok, err, StealError, read_at, book_items, push, pop}

-- `old_head`, `new_head` and `transfer_count` of `steal`, with the offsets done and what was read.
pub record Theft : Type 0 where
  pub old_head : ℕ
  pub new_head : ℕ
  pub count : ℕ
  pub offset : ℕ
  pub loot : List ℕ

-- `popped` are the results of `pop` and `pushed` those of `push` that were refused, newest first;
-- `stolen` are the items of the steals that have ended, in order.
pub record Shared : Type 0 where
  pub queue : Queue
  pub theft : Option Theft
  pub stolen : List ℕ
  pub popped : List (Option ℕ)
  pub refused : List ℕ

pub data Event : Type 0 where
  book : (ℕ → ℕ) → ℕ → Event
  copy : Event
  publish : Event
  push_item : ℕ → Event
  pop_item : Event

module _ (cap : ℕ) where
  unfoldable pub booked_as : Shared → Result StealError (ℕ × ℕ × ℕ) × Queue → Shared
  booked_as s (err e, q) = s
  booked_as s (ok (old_head, new_head, count), q) = record s {
    queue = q;
    theft =
        some (record {
          old_head = old_head;
          new_head = new_head;
          count = count;
          offset = 0;
          loot = [];
        });
  }

  -- The body of the loop of `steal`.
  unfoldable pub copy_one : Queue → Theft → Theft
  copy_one q t =
      if ltb t.offset t.count
      then record t {
        offset = t.offset + 1;
        loot = t.loot ++ read_at cap q.buffer (add_u32 t.old_head t.offset) ∷ [];
      }
      else t

  -- The store to `head` at the end of `steal`.
  unfoldable pub publish_head : Shared → Theft → Shared
  publish_head s t =
      if t.offset == t.count
      then record s {
        queue = record s.queue { head = t.new_head };
        theft = none;
        stolen = s.stolen ++ t.loot;
      }
      else s

  unfoldable pub pushed_as : Shared → Result ℕ (Unit {0}) × Queue → Shared
  pushed_as s (ok u, q) = record s { queue = q }
  pushed_as s (err item, q) = record s { queue = q; refused = item ∷ s.refused }

  unfoldable pub popped_as : Shared → Option ℕ × Queue → Shared
  popped_as s (r, q) = record s { queue = q; popped = r ∷ s.popped }

  unfoldable pub copy_as : Shared → Option Theft → Shared
  copy_as s none = s
  copy_as s (some t) = record s { theft = some (copy_one s.queue t) }

  unfoldable pub publish_as : Shared → Option Theft → Shared
  publish_as s none = s
  publish_as s (some t) = publish_head s t

  -- One step; an event that no thread can take now changes nothing.
  unfoldable pub step : Event → Shared → Shared
  step (book count_fn max_count) s = booked_as s (book_items cap s.queue count_fn max_count)
  step copy s = copy_as s s.theft
  step publish s = publish_as s s.theft
  step (push_item item) s = pushed_as s (push cap s.queue item)
  step pop_item s = popped_as s (pop cap s.queue)

  unfoldable pub run : List Event → Shared → Shared
  run [] s = s
  run (e ∷ es) s = run es (step e s)
