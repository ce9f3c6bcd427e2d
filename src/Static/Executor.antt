-- ===== src/Static/Executor.antt =====
-- async/src/no_alloc/executor.rs, and `waker_wake` of waker.rs: executors of several cores over the
-- global queues. A task is a pointer, a number; its header is found in `headers`. What a poll of the
-- task's future does to all of this, by wakes also, and its result are the parameter `poll`, which
-- stands for `TaskSlot::poll`. Operations of a core are run without interference.
pub mod Tasks
pub mod Rounds
pub mod Wakes
pub mod Tests
use uefi_async.Base.{
  ℕ, zero, suc, ◌+◌, ◌-◌, ◌^◌, Bool, true, false, Option, none, some, List, [], ◌∷◌, Result, ok,
  err, ◌==◌, ltb, if◌then◌else◌, get_or, set, replicate,
}
use uefi_async.Static.Lifo as lifo
use uefi_async.Static.Task.{
  TaskHeader, initialized, ready, running, unreachable, into, compare_exchange,
}

abbrev pub core_size : ℕ
core_size = 4

abbrev pub queue_size : ℕ
queue_size = 256

pub record System (W : Type 0) : Type 0 where
  pub queues : List lifo.Queue  -- `GLOBAL_QUEUES`
  pub headers : ℕ → TaskHeader
  pub world : W

module _ {W : Type 0} where
  abbrev pub queue_of : System W → ℕ → lifo.Queue
  queue_of s core = get_or s.queues core (lifo.new queue_size)

  abbrev pub with_queue : System W → ℕ → lifo.Queue → System W
  with_queue s core q = record s { queues = set s.queues core q }

  abbrev pub with_header : System W → ℕ → TaskHeader → System W
  with_header s ptr h = record s { headers = λ p. if p == ptr then h else s.headers p }

  -- `self.worker.push(ptr)`
  unfoldable pub push_to : ℕ → ℕ → System W → Result ℕ (Unit {0}) × System W
  push_to core ptr s =
      let (r, q) = lifo.push queue_size (queue_of s core) ptr in (r, with_queue s core q)

  -- `Executor::add`; `none` is its panic.
  unfoldable pub add : ℕ → ℕ → System W → Option (System W)
  add core ptr s =
      let (exchanged, h) = compare_exchange (s.headers ptr) initialized ready in
      let (r, s') = push_to core ptr (with_header s ptr h) in
      elim r [ ok u ↦ some s' | err p ↦ none ]

  -- `waker_wake`: `control` is used as the number of a core; `none` is the panic of the index.
  unfoldable pub waker_wake : ℕ → System W → Option (System W)
  waker_wake ptr s =
      let woken = with_header s ptr (record (s.headers ptr) { state = into ready }) in
      let core = (s.headers ptr).control in
      if ltb core core_size then some (push_to core ptr woken).1 else none

  -- The `for` loop of `Executor::try_steal` on the `n` queues from number `id` on.
  unfoldable pub try_steal_from : ℕ → ℕ → ℕ → System W → Option ℕ × System W
  try_steal_from core zero id s = (none, s)
  try_steal_from core (suc n) id s =
      let rest = try_steal_from core n (suc id) s in
      let (r, source, dest) =
        lifo.steal_and_pop queue_size (queue_of s id) (queue_of s core) (λ _. 1) in
      if id == core then rest else (elim r [
        | ok (task, moved) ↦ (some task, with_queue (with_queue s id source) core dest)
        | err e ↦ rest
      ])

  abbrev pub try_steal : ℕ → System W → Option ℕ × System W
  try_steal core s = try_steal_from core core_size 0 s

module _ {W : Type 0} (poll : ℕ → System W → Bool × System W) where
  -- `Executor::run_task`
  unfoldable pub run_task : ℕ → ℕ → System W → System W
  run_task core ptr s =
      let (exchanged, h) = compare_exchange (s.headers ptr) ready running in
      let (is_ready, s') = poll ptr (with_header s ptr h) in
      if exchanged
      then (if is_ready
          then with_header s' ptr (compare_exchange (s'.headers ptr) running unreachable).1
          else (push_to core ptr
              (with_header s' ptr (record (s'.headers ptr) { state = into ready }))).1)
      else s

  -- One round of the loop of `Executor::run`.
  unfoldable pub turn : ℕ → System W → System W
  turn core s =
      let (popped, q) = lifo.pop queue_size (queue_of s core) in
      let (stolen, s') = try_steal core s in
      elim popped [
        | some task ↦ run_task core task (with_queue s core q)
        | none ↦ elim stolen [ some task ↦ run_task core task s' | none ↦ s' ]
      ]
