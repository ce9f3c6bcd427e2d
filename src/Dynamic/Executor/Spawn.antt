-- ===== src/Dynamic/Executor/Spawn.antt =====
-- `spawn` of async/src/dynamic/executor.rs.
use uefi_async.Base.{
  ℕ, ◌+◌, ◌<◌, ◌^◌, ◌≡◌, inl, inr, refl, [], ◌∷◌, ◌++◌, false, none, some, ◌==◌, if◌then◌else◌,
  arith, PollFn, length, Bool-cases, add_u64,
}
use uefi_async.Dynamic.Queues.{QueueOps, QueueLaws}
use uefi_async.Dynamic.Registry.{lookup, register, retire}
use uefi_async.Dynamic.Registry.Lookup.{
  Distinct, Below, fresh_slot, lookup-register, lookup-retire, lookup-Below, register-Distinct,
  register-Below, update_first-Distinct, update_first-Below,
}
use uefi_async.Dynamic.Executor.{TaskNode, Executor, Shared, spawn, new_node, ticks}

-- The ids in the registry are distinct and have all been given out.
pub record IsValid {W : Type 0} (s : Shared W) : Type 0 where
  pub distinct : Distinct s.registry
  pub given_out : Below s.next_id s.registry

-- The node that a spawn makes.
abbrev pub spawned : {F W : Type 0} → Executor → F → ℕ → Shared W → TaskNode F
spawned e future freq s = record (new_node future freq) {
  id = s.next_id;
  interval = ticks freq e.freq;
}

module _ {F W : Type 0} (poll : PollFn F (Unit {0}) (Shared W)) (ops : QueueOps (TaskNode F)) where
  open ops use {Worker}

  -- A spawn keeps the ids distinct and given out, whether it succeeds or not.
  pub spawn-IsValid :
      (e : Executor) (future : F) (freq : ℕ) (w : Worker) (s : Shared W)
      → IsValid s
      → s.next_id + 1 < 2 ^ 64
      → IsValid (spawn poll ops e future freq w s).2
  unfolding spawn retire
  spawn-IsValid e future freq w s v below =
      let next : add_u64 s.next_id 1 ≡ s.next_id + 1 = omega arith in
      elim (Bool-cases (ops.push w (spawned e future freq s)).0) [
        | inl pushed ↦
            rw (pushed, next)
              (record {
                distinct = register-Distinct s.next_id freq s.registry v.given_out v.distinct;
                given_out = register-Below s.next_id freq s.registry v.given_out;
              })
        | inr refused ↦
            rw (refused, next)
              (record {
                distinct =
                    update_first-Distinct (λ x. x.id == s.next_id) (λ x. record x { alive = false })
                      (register s.next_id freq s.registry) (λ x. refl)
                      (register-Distinct s.next_id freq s.registry v.given_out v.distinct);
                given_out =
                    update_first-Below (s.next_id + 1) (λ x. x.id == s.next_id)
                      (λ x. record x { alive = false }) (register s.next_id freq s.registry)
                      (λ x. refl) (register-Below s.next_id freq s.registry v.given_out);
              })
      ]

module _ {F W : Type 0} (poll : PollFn F (Unit {0}) (Shared W)) {ops : QueueOps (TaskNode F)}
    (laws : QueueLaws ops) where
  open ops use {Worker, capacity}
  open laws use {tasks, push_room, push_full}

  -- With room in the queue a spawn returns a new id, which is live with its rate, appends one node
  -- with that id, and changes no other lookup.
  pub spawn_lem :
      (e : Executor) (future : F) (freq : ℕ) (w : Worker) (s : Shared W)
      → IsValid s
      → length (tasks w) < capacity w
      → let (r, w', s') = spawn poll ops e future freq w s in
        (r ≡ some s.next_id)
        × (tasks w' ≡ tasks w ++ spawned e future freq s ∷ [])
        × ((j : ℕ)
            → lookup j s'.registry
              ≡ (if j == s.next_id then some (fresh_slot s.next_id freq) else lookup j s.registry))
  unfolding spawn
  spawn_lem e future freq w s v room =
      let pushed = push_room w (spawned e future freq s) room in
      rw (pushed.0) (refl, pushed.1, λ j. lookup-register s.next_id freq j s.registry v.given_out)

  -- A spawn on a full queue fails, and leaves the queue and every lookup as they were.
  spawn_full :
      (e : Executor) (future : F) (freq : ℕ) (w : Worker) (s : Shared W)
      → IsValid s
      → length (tasks w) ≡ capacity w
      → let (r, w', s') = spawn poll ops e future freq w s in
        (r ≡ none) × (tasks w' ≡ tasks w) × ((j : ℕ) → lookup j s'.registry ≡ lookup j s.registry)
  unfolding spawn
  spawn_full e future freq w s v full =
      let pushed = push_full w (spawned e future freq s) full in
      rw (pushed.0) (
        refl,
        pushed.1,
        λ j. ground (
          arith,
          lookup-retire s.next_id j (register s.next_id freq s.registry)
              (register-Distinct s.next_id freq s.registry v.given_out v.distinct),
          lookup-register s.next_id freq j s.registry v.given_out,
          lookup-Below s.next_id s.registry v.given_out,
        ),
      )
