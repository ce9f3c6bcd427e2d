-- ===== src/Macros/Nano/Registers.antt =====
-- What the statements that `nano!` (macros/src/nano.rs) generates do to the executors that they name
-- (async/src/nano_alloc/executor.rs).
use uefi_async.Base.{
  ℕ, suc, ◌≡◌, refl, sym, ap, ◌∙◌, Bool, true, false, ◌&&◌, List, [], ◌∷◌, ◌++◌, Option, none, some,
  ◌==◌, ==_iff, ==_refl, Bool-cases, inl, inr, if◌then◌else◌, assign, All, unwrap_or, checked_div,
}
use uefi_async.Nano.Executor.{TaskNode, new_node, Executor, add}
use uefi_async.Macros.Nano.{
  Syn, TaskEntry, ExecutorEntry, Statement, declare, add_to, task_statements, statements, task,
}
use uefi_async.Macros.Nano.RoundTrip.{SynLaws, terminated, print_executor, Plain, task-print}

-- The variables that have been declared, and the executors by their names.
pub record Scope (F : Type 0) : Type 0 where
  pub nodes : ℕ → ℕ → Option (TaskNode F)
  pub executors : ℕ → Executor F

-- The tasks that are written for an executor, in order.
abbrev pub written : {E : Type 0} → ℕ → List (ExecutorEntry E) → List (TaskEntry E)
written n [] = []
written n (e ∷ es) = if e.name == n then e.tasks ++ written n es else written n es

-- The value of an expression is a future, or a frequency.
module _ {E F : Type 0} (future : E → F) (rate : E → ℕ) where
  unfoldable pub add_node : Scope F → ℕ → Option (TaskNode F) → Scope F
  add_node s name none = s
  add_node s name (some node) = record s {
    executors = assign s.executors name (add (s.executors name) node);
  }

  unfoldable pub perform : Statement E → Scope F → Scope F
  perform (declare (i, j) func freq) s = record s {
    nodes =
        λ k l. if i == k && j == l then some (new_node (future func) (rate freq)) else s.nodes k l;
  }
  perform (add_to name (i, j)) s = add_node s name (s.nodes i j)

  unfoldable pub perform_all : List (Statement E) → Scope F → Scope F
  perform_all [] s = s
  perform_all (c ∷ cs) s = perform_all cs (perform c s)

  -- A node as it stands in an executor with this clock frequency.
  abbrev pub node_of : ℕ → TaskEntry E → TaskNode F
  node_of clock t = record {
    future = future t.func;
    interval = unwrap_or (checked_div clock (rate t.freq)) 0;
    next_run_time = 0;
  }

  -- Each task in front of those before it.
  abbrev pub stacked : ℕ → List (TaskEntry E) → List (TaskNode F) → List (TaskNode F)
  stacked clock [] ns = ns
  stacked clock (t ∷ ts) ns = stacked clock ts (node_of clock t ∷ ns)

  abbrev pub put : Executor F → List (TaskEntry E) → Executor F
  put e ts = record e { head = stacked e.freq ts e.head }

  stacked-append :
      (clock : ℕ) (ts us : List (TaskEntry E)) (ns : List (TaskNode F))
      → stacked clock (ts ++ us) ns ≡ stacked clock us (stacked clock ts ns)
  stacked-append clock [] us ns = refl
  stacked-append clock (t ∷ ts) us ns = stacked-append clock ts us (node_of clock t ∷ ns)

  perform_all-append :
      (cs ds : List (Statement E)) (s : Scope F)
      → perform_all (cs ++ ds) s ≡ perform_all ds (perform_all cs s)
  unfolding perform_all
  perform_all-append [] ds s = refl
  perform_all-append (c ∷ cs) ds s = perform_all-append cs ds (perform c s)

  -- The two statements of one task.
  abbrev registered : ℕ → ℕ → ℕ → TaskEntry E → Scope F → Scope F
  registered name i j t s = perform (add_to name (i, j)) (perform (declare (i, j) t.func t.freq) s)

  assign_lem :
      (f : ℕ → Executor F) (name n : ℕ) (t : TaskEntry E)
      → assign f name (put (f name) (t ∷ [])) n ≡ (if name == n then put (f n) (t ∷ []) else f n)
  assign_lem f name n t = elim (Bool-cases (name == n)) [
    | inl e ↦ rw e (ap (λ k. put (f k) (t ∷ [])) ((==_iff name n).0 e))
    | inr e ↦ rw e
  ]

  registered_lem :
      (name i j n : ℕ) (t : TaskEntry E) (s : Scope F)
      → (registered name i j t s).executors n
        ≡ (if name == n then put (s.executors n) (t ∷ []) else s.executors n)
  unfolding perform add_node add new_node
  registered_lem name i j n t s = rw (==_refl i, ==_refl j) (assign_lem s.executors name n t)

  -- Both branches put, if the other one puts nothing.
  put_if :
      (b : Bool) (e : Executor F) (ts us : List (TaskEntry E))
      → (if b then put (if b then put e ts else e) us else (if b then put e ts else e))
        ≡ (if b then put e (ts ++ us) else e)
  put_if true e ts us = ap (λ ns. record e { head = ns }) (sym (stacked-append e.freq ts us e.head))
  put_if false e ts us = refl

  perform_tasks :
      (name i j n : ℕ) (ts : List (TaskEntry E)) (s : Scope F)
      → (perform_all (task_statements name i j ts) s).executors n
        ≡ (if name == n then put (s.executors n) ts else s.executors n)
  unfolding perform_all task_statements
  perform_tasks name i j n [] s = elim (Bool-cases (name == n)) [ inl e ↦ rw e | inr e ↦ rw e ]
  perform_tasks name i j n (t ∷ ts) s =
      perform_tasks name i (suc j) n ts (registered name i j t s)
      ∙ ap (λ e. if name == n then put e ts else e) (registered_lem name i j n t s)
      ∙ put_if (name == n) (s.executors n) (t ∷ []) ts

  put_written :
      (b : Bool) (e : Executor F) (ts us : List (TaskEntry E))
      → put (if b then put e ts else e) us ≡ put e (if b then ts ++ us else us)
  put_written true e ts us =
      ap (λ ns. record e { head = ns }) (sym (stacked-append e.freq ts us e.head))
  put_written false e ts us = refl

  perform_statements :
      (i n : ℕ) (es : List (ExecutorEntry E)) (s : Scope F)
      → (perform_all (statements i es) s).executors n ≡ put (s.executors n) (written n es)
  unfolding perform_all statements
  perform_statements i n [] s = refl
  perform_statements i n (e ∷ es) s =
      ap (λ s'. s'.executors n)
        (perform_all-append (task_statements e.name i 0 e.tasks) (statements (suc i) es) s)
      ∙ perform_statements (suc i) n es (perform_all (task_statements e.name i 0 e.tasks) s)
      ∙ ap (λ x. put x (written n es)) (perform_tasks e.name i 0 n e.tasks s)
      ∙ put_written (e.name == n) (s.executors n) e.tasks (written n es)

  -- `nano!` of a text for entries whose frequencies are written without arrows gives code that adds to
  -- each executor exactly the tasks that are written for it, each with its own future and the interval
  -- of its own frequency, and the one that is written last at the head of the list.
  pub nano_registers :
      {T : Type 0} (syn : Syn T E) (laws : SynLaws syn) (inner outer : Bool)
      (es : List (ExecutorEntry E)) (s : Scope F)
      → All (Plain syn laws) es
      → (code : List (Statement E)) × (task syn
            (terminated syn laws (print_executor syn laws inner) outer es)
          ≡ some code)
        × ((n : ℕ) → (perform_all code s).executors n ≡ put (s.executors n) (written n es))
  nano_registers syn laws inner outer es s h =
      (statements 0 es, task-print syn laws inner outer es h, λ n. perform_statements 0 n es s)
