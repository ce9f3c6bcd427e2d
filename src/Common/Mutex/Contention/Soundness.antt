-- ===== src/Common/Mutex/Contention/Soundness.antt =====
-- The invariant of the mutex of async/src/common/mutex.rs under contention.
use uefi_async.Base.{
  ℕ, ◌≤◌, ◌≡◌, ◌≢◌, refl, ap, List, [], true, false, arith, length, if◌then◌else◌, All,
}
use uefi_async.Common.Mutex.{Waiter, new}
use uefi_async.Common.Mutex.Nodups.{NotIn}
use uefi_async.Common.Mutex.Segments.{Seg-links}
use uefi_async.Common.Mutex.Queue.{IsQueue}
use uefi_async.Common.Mutex.Wakes.{}
use uefi_async.Common.Mutex.Remaining.{All-map, All-zip}
use uefi_async.Common.Mutex.Contention.{Phase, is_alive, System, start, with_phase, with_waiter}

module _ {A : Type 0} where
  abbrev pub Waits : System A → ℕ → Type 0
  Waits s y = (s.linked y ≡ true) × (is_alive (s.phase y) ≡ true)

  -- The queue holds only futures that are alive and linked, in order of arrival; it is no longer
  -- than the number of calls of `link`; and a guard is held exactly when the flag is set.
  pub record Sound (s : System A) (xs : List ℕ) : Type 0 where
    pub queue : IsQueue s.mutex xs
    pub waiting : All (Waits s) xs
    pub short : length xs ≤ s.links
    pub exclusive : s.guards ≡ (if s.mutex.locked then 1 else 0)

  abbrev pub Soundly : System A → Type 0
  Soundly s = (xs : List ℕ) × Sound s xs

  pub start-Sound : (value : A) (nodes : ℕ → Waiter) → Sound (start value nodes) []
  unfolding start new
  start-Sound value nodes = record {
    queue = record { chain = refl; ending = refl; distinct = tt };
    waiting = tt;
    short = omega arith;
    exclusive = refl;
  }

  pub unlinked-NotIn :
      (i : ℕ) (s : System A) (xs : List ℕ) → s.linked i ≡ false → Sound s xs → NotIn i xs
  unlinked-NotIn i s xs e h =
      All-map (Waits s) (λ y. y ≢ i) xs (λ y w k. ground (arith, w.0, e, ap s.linked k)) h.waiting

  pub absent-NotIn :
      (i : ℕ) (s : System A) (xs : List ℕ) → is_alive (s.phase i) ≡ false → Sound s xs → NotIn i xs
  absent-NotIn i s xs e h =
      All-map (Waits s) (λ y. y ≢ i) xs
        (λ y w k. ground (arith, w.1, e, ap (λ j. is_alive (s.phase j)) k)) h.waiting

  pub with_phase-Sound :
      (i : ℕ) (p : Phase) (s : System A) (xs : List ℕ)
      → is_alive p ≡ true
      → Sound s xs
      → Sound (with_phase i p s) xs
  with_phase-Sound i p s xs e h = record {
    queue = h.queue;
    waiting =
        All-map (Waits s) (Waits (with_phase i p s)) xs (λ y w. (w.0, ground (arith, w.1, e)))
          h.waiting;
    short = h.short;
    exclusive = h.exclusive;
  }

  pub with_phase-Sound-out :
      (i : ℕ) (p : Phase) (s : System A) (xs : List ℕ)
      → NotIn i xs
      → Sound s xs
      → Sound (with_phase i p s) xs
  with_phase-Sound-out i p s xs out h = record {
    queue = h.queue;
    waiting =
        All-zip (Waits s) (λ y. y ≢ i) (Waits (with_phase i p s)) xs
          (λ y w n. (w.0, ground (arith, w.1, n))) h.waiting out;
    short = h.short;
    exclusive = h.exclusive;
  }

  pub with_waiter-Sound :
      (i : ℕ) (v : Waiter) (s : System A) (xs : List ℕ)
      → v.next ≡ (s.mutex.nodes i).next
      → v.prev ≡ (s.mutex.nodes i).prev
      → Sound s xs
      → Sound (with_waiter i v s) xs
  with_waiter-Sound i v s xs n r h = record {
    queue = record {
      chain = Seg-links s.mutex.nodes i v 0 s.mutex.head xs 0 n r h.queue.chain;
      ending = h.queue.ending;
      distinct = h.queue.distinct;
    };
    waiting = h.waiting;
    short = h.short;
    exclusive = h.exclusive;
  }
