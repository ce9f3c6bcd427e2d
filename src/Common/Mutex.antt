-- ===== src/Common/Mutex.antt =====
-- async/src/common/mutex.rs: the mutex with a queue of waiters. A waiter node is found in memory by
-- its address, a number that is not 0, which stands for the future that it is part of; a waker is a
-- number. Loops over the queue run on fuel, and `none` means that it ran out; the theorems say how
-- much is enough. Each function here is one step: `try_lock` and the store of `unlock` are one access
-- of the flag, and the others run with the lock of the queue held.
mod Nodups
pub mod Segments
pub mod Queue
pub mod Detach
pub mod Unlink
mod Pops
pub mod Wakes
mod Remaining
pub mod Contention
use uefi_async.Base.{
  ℕ, zero, suc, Bool, true, false, Option, none, some, Poll, ready, pending, ◌==◌, if◌then◌else◌,
  assign,
}

pub record Waiter : Type 0 where
  pub waker : Option ℕ
  pub woken : Bool
  pub next : ℕ
  pub prev : ℕ

abbrev pub null : ℕ
null = 0

-- `AsyncMutex<T>`, the fields of its `WaitList`, and the nodes in memory.
pub record AsyncMutex (A : Type 0) : Type 0 where
  pub locked : Bool
  pub head : ℕ
  pub tail : ℕ
  pub data_ : A
  pub nodes : ℕ → Waiter

-- `LockFuture`, by the address of its node.
pub record LockFuture : Type 0 where
  pub node : ℕ
  pub linked : Bool

-- The node of `AsyncMutex::lock`.
abbrev pub fresh_node : Waiter
fresh_node = record { waker = none; woken = false; next = null; prev = null }

abbrev pub with_next : (ℕ → Waiter) → ℕ → ℕ → ℕ → Waiter
with_next nodes p q = assign nodes p (record (nodes p) { next = q })

abbrev pub with_prev : (ℕ → Waiter) → ℕ → ℕ → ℕ → Waiter
with_prev nodes p q = assign nodes p (record (nodes p) { prev = q })

module _ {A : Type 0} where
  -- `AsyncMutex::new`
  unfoldable pub new : A → (ℕ → Waiter) → AsyncMutex A
  new value nodes = record {
    locked = false;
    head = null;
    tail = null;
    data_ = value;
    nodes = nodes;
  }

  -- `AsyncMutex::try_lock`: whether a guard is given.
  unfoldable pub try_lock : AsyncMutex A → Bool × AsyncMutex A
  try_lock s = if s.locked then (false, s) else (true, record s { locked = true })

  -- `AsyncMutex::lock`
  unfoldable pub lock : ℕ → AsyncMutex A → LockFuture × AsyncMutex A
  lock node s =
      (record { node = node; linked = false }, record s { nodes = assign s.nodes node fresh_node })

  -- `AsyncMutex::link`
  unfoldable pub link : ℕ → AsyncMutex A → AsyncMutex A
  link node s =
      let nodes1 = with_next (with_prev s.nodes node s.tail) node null in
      if s.tail == null
      then record s { nodes = nodes1; head = node; tail = node }
      else record s { nodes = with_next nodes1 s.tail node; tail = node }

  -- The body of the loop of `unlink` at the node that is looked for, write by write: what points to
  -- it from the front, what points to it from behind, and its own links.
  unfoldable pub skip_forward : ℕ → AsyncMutex A → AsyncMutex A
  skip_forward cur s =
      if (s.nodes cur).prev == null
      then record s { head = (s.nodes cur).next }
      else record s { nodes = with_next s.nodes (s.nodes cur).prev (s.nodes cur).next }

  unfoldable pub skip_back : ℕ → AsyncMutex A → AsyncMutex A
  skip_back cur s =
      if (s.nodes cur).next == null
      then record s { tail = (s.nodes cur).prev }
      else record s { nodes = with_prev s.nodes (s.nodes cur).next (s.nodes cur).prev }

  unfoldable pub clear_links : ℕ → AsyncMutex A → AsyncMutex A
  clear_links cur s = record s { nodes = with_prev (with_next s.nodes cur null) cur null }

  unfoldable pub detach : ℕ → AsyncMutex A → AsyncMutex A
  detach cur s = clear_links cur (skip_back cur (skip_forward cur s))

  unfoldable pub unlink_from : ℕ → ℕ → ℕ → AsyncMutex A → Option (AsyncMutex A)
  unlink_from zero cur node s = none
  unlink_from (suc fuel) cur node s =
      let rest = unlink_from fuel (s.nodes cur).next node s in
      if cur == null then some s else if cur == node then some (detach cur s) else rest

  -- `AsyncMutex::unlink`
  unfoldable pub unlink : ℕ → ℕ → AsyncMutex A → Option (AsyncMutex A)
  unlink fuel node s = unlink_from fuel s.head node s

  -- The head of the queue taken out, in the loop of `unlock`: the new head, what points to the old
  -- one from behind, and the links of the old one.
  unfoldable pub advance : AsyncMutex A → AsyncMutex A
  advance s = record s { head = (s.nodes s.head).next }

  unfoldable pub forget_prev : AsyncMutex A → AsyncMutex A
  forget_prev s =
      if s.head == null
      then record s { tail = null }
      else record s { nodes = with_prev s.nodes s.head null }

  unfoldable pub pop_head : AsyncMutex A → AsyncMutex A
  pop_head s = clear_links s.head (forget_prev (advance s))

  -- The loop of `unlock`: the waker that it finds.
  unfoldable pub pop_waker : ℕ → AsyncMutex A → Option (Option ℕ × AsyncMutex A)
  pop_waker zero s = none
  pop_waker (suc fuel) s =
      let node = s.head in
      let s' = pop_head s in
      let rest = pop_waker fuel s' in
      if node == null then some (none, s) else (elim (s'.nodes node).waker [
        | none ↦ rest
        | some w ↦ some (
          some w,
          record s' {
            nodes = assign s'.nodes node (record (s'.nodes node) { waker = none; woken = true });
          },
        )
      ])

  -- `AsyncMutex::unlock`, with no step of others inside: the waker to wake.
  unfoldable pub unlock : ℕ → AsyncMutex A → Option (Option ℕ × AsyncMutex A)
  unlock fuel s = pop_waker fuel (record s { locked = false })

  -- `LockFuture::drop`
  unfoldable pub drop_future : ℕ → LockFuture → AsyncMutex A → Option (AsyncMutex A)
  drop_future fuel f s = if f.linked then unlink fuel f.node s else some s
