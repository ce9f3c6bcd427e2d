-- ===== src/Common/Mutex/Contention.antt =====
-- `LockFuture::poll` and the guards of async/src/common/mutex.rs as steps that other tasks and cores
-- may come between. A future is known by the address of its node, which is also the waker of its
-- task. A future is in a phase, which says what it does next; one step is one access of the flag, one
-- call that holds the lock of the queue, or one access of its own node. `links` counts the calls of
-- `link`, which bounds the queue, so it is fuel enough for the loops.
pub mod Soundness
pub mod Steps
pub mod Progress
pub mod Outcomes
pub mod Stranding
pub mod Far
pub mod Stays
pub mod Tests
use uefi_async.Base.{
  ℕ, zero, suc, ◌+◌, ◌-◌, List, [], ◌∷◌, Bool, true, false, not, ◌&&◌, Option, none, some, ◌==◌,
  if◌then◌else◌, assign, ltb, ◌≡◌,
}
use uefi_async.Common.Mutex.{
  Waiter, AsyncMutex, LockFuture, new, try_lock, lock, link, unlink, pop_waker, drop_future,
}

-- `idle` is between two polls; in the other phases after it a poll is under way, up to `owner`,
-- which has returned its guard.
pub data Phase : Type 0 where
  absent : Phase
  idle : Phase
  took : Phase
  failed : Phase
  enlisted : Phase
  flagged : Phase
  parking : Phase
  owner : Phase

unfoldable pub is_alive : Phase → Bool
is_alive absent = false
is_alive idle = true
is_alive took = true
is_alive failed = true
is_alive enlisted = true
is_alive flagged = true
is_alive parking = true
is_alive owner = true

-- No poll is under way.
unfoldable pub rests : Phase → Bool
rests absent = false
rests idle = true
rests took = false
rests failed = false
rests enlisted = false
rests flagged = false
rests parking = false
rests owner = true

-- A future that may be polled on.
unfoldable pub can_turn : Phase → Bool
can_turn absent = false
can_turn idle = true
can_turn took = true
can_turn failed = true
can_turn enlisted = true
can_turn flagged = true
can_turn parking = true
can_turn owner = false

-- `guards` are held, `releasing` have cleared the flag in their drop and have yet to wake someone;
-- `wakes` are the calls of wakers, newest first.
pub record System (A : Type 0) : Type 0 where
  pub mutex : AsyncMutex A
  pub links : ℕ
  pub linked : ℕ → Bool
  pub phase : ℕ → Phase
  pub guards : ℕ
  pub releasing : ℕ
  pub wakes : List ℕ

pub data Event : Type 0 where
  begin_lock : ℕ → Event
  turn : ℕ → Event
  drop_lock : ℕ → Event
  release : Event
  wake_one : Event

module _ {A : Type 0} where
  unfoldable pub start : A → (ℕ → Waiter) → System A
  start value nodes = record {
    mutex = new value nodes;
    links = 0;
    linked = λ i. false;
    phase = λ i. absent;
    guards = 0;
    releasing = 0;
    wakes = [];
  }

  abbrev pub with_phase : ℕ → Phase → System A → System A
  with_phase i p s = record s { phase = assign s.phase i p }

  abbrev pub with_waiter : ℕ → Waiter → System A → System A
  with_waiter i v s = record s { mutex = record s.mutex { nodes = assign s.mutex.nodes i v } }

  -- `AsyncMutex::lock`, at an address where no future lives.
  unfoldable pub begin_future : ℕ → System A → System A
  begin_future i s =
      let (f, m) = lock i s.mutex in
      with_phase i idle (record s { mutex = m; linked = assign s.linked i f.linked })

  -- The fast path of `poll`.
  unfoldable pub attempt : ℕ → System A → System A
  attempt i s =
      let (taken, m) = try_lock s.mutex in
      let s' = record s { mutex = m; guards = suc s.guards } in
      if taken then with_phase i (if s.linked i then took else owner) s' else with_phase i failed s

  -- `unlink` and `linked = false`, which the fast path and the re-check share.
  unfoldable pub left_with : ℕ → System A → Option (AsyncMutex A) → Option (System A)
  left_with i s none = none
  left_with i s (some m) = some (record s { mutex = m; linked = assign s.linked i false })

  unfoldable pub leave : ℕ → System A → Option (System A)
  leave i s = left_with i s (unlink (suc s.links) i s.mutex)

  -- "Slow path: link once"
  unfoldable pub enlist : ℕ → System A → System A
  enlist i s = with_phase i enlisted (
      if s.linked i then s else record s {
        mutex = link i s.mutex;
        links = suc s.links;
        linked = assign s.linked i true;
      })

  -- "Re-check after linking"
  unfoldable pub look : ℕ → System A → System A
  look i s = with_phase i (if (s.mutex.nodes i).woken then flagged else parking) s

  unfoldable pub park : ℕ → System A → System A
  park i s = with_phase i idle (with_waiter i (record (s.mutex.nodes i) { waker = some i }) s)

  -- `woken = false` and `wake_by_ref`, after `leave`.
  unfoldable pub retry : ℕ → System A → System A
  retry i s =
      let s' = with_waiter i (record (s.mutex.nodes i) { woken = false }) s in
      with_phase i idle (record s' { wakes = i ∷ s.wakes })

  unfoldable pub then_phase : ℕ → Phase → Option (System A) → Option (System A)
  then_phase i p none = none
  then_phase i p (some s) = some (with_phase i p s)

  unfoldable pub then_retry : ℕ → Option (System A) → Option (System A)
  then_retry i none = none
  then_retry i (some s) = some (retry i s)

  -- What a future does next in a phase.
  unfoldable pub turn_at : Phase → ℕ → System A → Option (System A)
  turn_at absent i s = none
  turn_at idle i s = some (attempt i s)
  turn_at took i s = then_phase i owner (leave i s)
  turn_at failed i s = some (enlist i s)
  turn_at enlisted i s = some (look i s)
  turn_at flagged i s = then_retry i (leave i s)
  turn_at parking i s = some (park i s)
  turn_at owner i s = none

  -- `LockFuture::drop`, and the memory of the future free again.
  unfoldable pub ended_with : ℕ → System A → Option (AsyncMutex A) → Option (System A)
  ended_with i s none = none
  ended_with i s (some m) = some (with_phase i absent (record s { mutex = m }))

  unfoldable pub end_future : ℕ → System A → Option (System A)
  end_future i s =
      let f : LockFuture = record { node = i; linked = s.linked i } in
      ended_with i s (drop_future (suc s.links) f s.mutex)

  -- `Guard::drop`: the flag, and then the rest of `unlock`.
  unfoldable pub clear_flag : System A → System A
  clear_flag s = record s {
    mutex = record s.mutex { locked = false };
    guards = s.guards - 1;
    releasing = suc s.releasing;
  }

  unfoldable pub woke_with : System A → Option (Option ℕ × AsyncMutex A) → Option (System A)
  woke_with s none = none
  woke_with s (some (none, m)) = some (record s { mutex = m; releasing = s.releasing - 1 })
  woke_with s (some (some w, m)) =
      some (record s { mutex = m; releasing = s.releasing - 1; wakes = w ∷ s.wakes })

  unfoldable pub wake_waiter : System A → Option (System A)
  wake_waiter s = woke_with s (pop_waker (suc s.links) s.mutex)

  -- What can happen in a state: an address is free before a future is made there, a future is not
  -- dropped or moved in the middle of a poll, and a guard is dropped once.
  unfoldable pub enabled : Event → System A → Bool
  enabled (begin_lock i) s = ltb 0 i && not (is_alive (s.phase i))
  enabled (turn i) s = ltb 0 i && can_turn (s.phase i)
  enabled (drop_lock i) s = rests (s.phase i)
  enabled release s = ltb 0 s.guards
  enabled wake_one s = ltb 0 s.releasing

  unfoldable pub act : Event → System A → Option (System A)
  act (begin_lock i) s = some (begin_future i s)
  act (turn i) s = turn_at (s.phase i) i s
  act (drop_lock i) s = end_future i s
  act release s = some (clear_flag s)
  act wake_one s = wake_waiter s

  unfoldable pub step : Event → System A → Option (System A)
  step e s = if enabled e s then act e s else none

  unfoldable pub run : List Event → System A → Option (System A)
  run [] s = some s
  run (e ∷ es) s = elim (step e s) [ none ↦ none | some t ↦ run es t ]

  unfoldable pub then_ready : ℕ → Option (System A) → Option (Bool × System A)
  then_ready i none = none
  then_ready i (some s) = some (true, with_phase i owner s)

  unfoldable pub then_pending : ℕ → Option (System A) → Option (Bool × System A)
  then_pending i none = none
  then_pending i (some s) = some (false, retry i s)

  -- `LockFuture::poll` with no step of others inside: whether it is ready.
  unfoldable pub poll : ℕ → System A → Option (Bool × System A)
  poll i s =
      let (taken, m) = try_lock s.mutex in
      let s1 = record s { mutex = m; guards = suc s.guards } in
      let s2 = enlist i s in
      if taken
      then (if s.linked i then then_ready i (leave i s1) else then_ready i (some s1))
      else (if (s2.mutex.nodes i).woken
          then then_pending i (leave i s2)
          else some (false, park i s2))
