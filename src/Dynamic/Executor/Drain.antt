-- ===== src/Dynamic/Executor/Drain.antt =====
-- The loop of `run_step` in async/src/dynamic/executor.rs over a LIFO queue: which tasks it reaches.
use uefi_async.Base.{
  ℕ, zero, suc, ◌<◌, ◌≡◌, ◌⊎◌, inl, inr, refl, sym, ap, ◌∙◌, List, [], ◌∷◌, ◌++◌, true, false, some,
  arith, PollFn, length, length-append, subst,
}
use uefi_async.Dynamic.Queues.{QueueOps, QueueLaws}
use uefi_async.Dynamic.Registry.{Slot, lookup}
use uefi_async.Dynamic.Executor.{TaskNode, Shared, poll_one, drain}
use uefi_async.Dynamic.Executor.Tasks.{poll_one_idle}

-- The end of a list that is not empty.
Snoc-cases {ℓ} :
    {A : Type ℓ} (xs : List A) → (xs ≡ []) ⊎ ((ys : List A) × (y : A) × (xs ≡ ys ++ y ∷ []))
Snoc-cases [] = inl refl
Snoc-cases (x ∷ xs) = elim (Snoc-cases xs) [
  | inl e ↦ inr ([], x, ap (λ ys. x ∷ ys) e)
  | inr (ys, y, e) ↦ inr (x ∷ ys, y, ap (λ zs. x ∷ zs) e)
]

module _ {F W : Type 0} (poll : PollFn F (Unit {0}) (Shared W)) {ops : QueueOps (TaskNode F)}
    (laws : QueueLaws ops) where
  open ops use {Worker, capacity, push, pop}
  open laws use {tasks, bounded, push_room, pop_last, pop_none}

  -- One round on a queue whose newest task stays: the task is back at the end.
  drain_round :
      (budget time freq_base : ℕ) (w : Worker) (s s' : Shared W) (ts : List (TaskNode F))
      (t t' : TaskNode F)
      → tasks w ≡ ts ++ t ∷ []
      → poll_one poll ops t time freq_base s ≡ (false, t', s')
      → (w' : Worker) × (drain poll ops (suc budget) time freq_base w s
          ≡ drain poll ops budget time freq_base w' s')
        × (tasks w' ≡ ts ++ t' ∷ [])
        × (capacity w' ≡ capacity w)
  unfolding drain
  drain_round budget time freq_base w s s' ts t t' e stays = (
    (push (pop w).1 t').1,
    ground (arith, popped),
    pushed.1 ∙ ap (λ us. us ++ t' ∷ []) popped.1,
    pushed.2 ∙ popped.2,
  )
    where
      popped : ((pop w).0 ≡ some t) × (tasks (pop w).1 ≡ ts) × (capacity (pop w).1 ≡ capacity w)
      popped = pop_last w ts t e

      room : length (tasks (pop w).1) < capacity (pop w).1
      room =
          omega
            (arith, popped, bounded w, ap length e, ap length popped.1, length-append ts (t ∷ []))

      pushed :
          ((push (pop w).1 t').0 ≡ true)
          × (tasks (push (pop w).1 t').1 ≡ tasks (pop w).1 ++ t' ∷ [])
          × (capacity (push (pop w).1 t').1 ≡ capacity (pop w).1)
      pushed = push_room (pop w).1 t' room

  -- While the newest task of a queue stays unfinished, a pass polls no other: the tasks below it are
  -- in the queue at the end as they were at the start. `Stays` is any property of the newest task
  -- that keeps it unfinished, and that its own turns keep.
  pub drain_starves :
      (Stays : TaskNode F → Shared W → Type 0) (time freq_base : ℕ)
      → ((t : TaskNode F) (s : Shared W)
          → Stays t s
          → let (finished, t', s') = poll_one poll ops t time freq_base s in
            (finished ≡ false) × Stays t' s')
      → (budget : ℕ) (w : Worker) (s : Shared W) (ts : List (TaskNode F)) (t : TaskNode F)
      → tasks w ≡ ts ++ t ∷ []
      → Stays t s
      → let (w', s') = drain poll ops budget time freq_base w s in
        (t' : TaskNode F) × (tasks w' ≡ ts ++ t' ∷ []) × Stays t' s'
  unfolding drain
  drain_starves Stays time freq_base keeps zero w s ts t e st = (t, e, st)
  drain_starves Stays time freq_base keeps (suc budget) w s ts t e st =
      let (_, t', s') = poll_one poll ops t time freq_base s in
      let kept = keeps t s st in
      let (w', step, e', _) =
        drain_round budget time freq_base w s s' ts t t' e (ap (λ b. (b, t', s')) kept.0) in
      subst (λ (r : Worker × Shared W). (u : TaskNode F) × (tasks r.0 ≡ ts ++ u ∷ []) × Stays u r.1)
        (sym step) (drain_starves Stays time freq_base keeps budget w' s' ts t' e' kept.1)

  -- When the newest task is live and not due it takes every round of the pass: no task is polled, and
  -- nothing changes.
  pub drain_not_due :
      (time freq_base budget : ℕ) (w : Worker) (s : Shared W) (ts : List (TaskNode F))
      (t : TaskNode F) (slot : Slot)
      → tasks w ≡ ts ++ t ∷ []
      → lookup t.id s.registry ≡ some slot
      → slot.cancelled ≡ false
      → time < t.next_run_time
      → let (w', s') = drain poll ops budget time freq_base w s in (tasks w' ≡ tasks w) × (s' ≡ s)
  unfolding drain
  drain_not_due time freq_base zero w s ts t slot e found live later = (refl, refl)
  drain_not_due time freq_base (suc budget) w s ts t slot e found live later =
      let idle = (poll_one_idle poll ops t time freq_base s slot).1 found live later in
      let (w', step, e', _) = drain_round budget time freq_base w s s ts t t e idle in
      let ih = drain_not_due time freq_base budget w' s ts t slot e' found live later in
      subst (λ (r : Worker × Shared W). (tasks r.0 ≡ tasks w) × (r.1 ≡ s)) (sym step)
        (ih.0 ∙ e' ∙ sym e, ih.1)
