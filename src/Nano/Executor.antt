-- ===== src/Nano/Executor.antt =====
-- async/src/nano_alloc/task.rs and executor.rs: the list executor. The intrusive list
-- (`head`, `next`) is a `List`; a boxed `dyn Future<Output = ()>` is a state `F` with the section's
-- `poll`, so one `F` can hold tasks of several kinds.
pub mod Order
pub mod Progress
mod Tests
use uefi_async.Base.{
  ℕ, List, [], ◌∷◌, Bool, true, false, Option, none, some, Poll, ready, pending, PollFn, leb,
  add_u64, checked_div, unwrap_or,
}

pub record TaskNode (F : Type 0) : Type 0 where
  pub future : F
  pub interval : ℕ  -- u64: the frequency until `add`, then ticks
  pub next_run_time : ℕ  -- u64

-- `TaskNode::new`; the link `next` is `None`.
unfoldable pub new_node : {F : Type 0} → F → ℕ → TaskNode F
new_node f freq = record { future = f; interval = freq; next_run_time = 0 }

pub record Executor (F : Type 0) : Type 0 where
  pub head : List (TaskNode F)
  pub freq : ℕ

-- `Executor::new`, with the frequency that `init_clock_freq` returned.
unfoldable pub new : {F : Type 0} → ℕ → Executor F
new freq = record { head = []; freq = freq }

unfoldable pub add : {F : Type 0} → Executor F → TaskNode F → Executor F
add e node = record e {
  head = record node { interval = unwrap_or (checked_div e.freq node.interval) 0 } ∷ e.head;
}

module _ {F W : Type 0} (poll : PollFn F (Unit {0}) W) where
  -- The loop of `run_step` over the nodes from the cursor on. `unlinked` says that this round of the
  -- loop has already unlinked a node here, so that all it has left to do is to move the cursor past
  -- the node that took its place.
  unfoldable pub pass : Bool → ℕ → List (TaskNode F) → W → List (TaskNode F) × W
  pass unlinked time [] w = ([], w)
  pass true time (node ∷ rest) w = let (ns, w') = pass false time rest w in (node ∷ ns, w')
  pass false time (node ∷ rest) w = elim (leb node.next_run_time time) [
    | false ↦ let (ns, w') = pass false time rest w in (node ∷ ns, w')
    | true ↦
        let (r, f, w') = poll node.future w in
        elim r [
          | ready _ ↦ pass true time rest w'
          | pending ↦
              let (ns, w'') = pass false time rest w' in
              (record node { future = f; next_run_time = add_u64 time node.interval } ∷ ns, w'')
        ]
  ]

  unfoldable pub run_step : Executor F → ℕ → W → Executor F × W
  run_step e time w = let (ns, w') = pass false time e.head w in (record e { head = ns }, w')

  -- `run_forever` up to a point: one `run_step` for each reading of the tick counter.
  unfoldable pub run_ticks : Executor F → List ℕ → W → Executor F × W
  run_ticks e [] w = (e, w)
  run_ticks e (t ∷ ts) w = let (e', w') = run_step e t w in run_ticks e' ts w'
