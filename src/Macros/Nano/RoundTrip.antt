-- ===== src/Macros/Nano/RoundTrip.antt =====
-- The input of `nano!` (macros/src/nano.rs) as it is written for given entries, and parsed again.
use uefi_async.Base.{
  ℕ, ◌<◌, ◌≡◌, ◌≢◌, sym, ap, subst, Bool, true, false, List, [], ◌∷◌, ◌++◌, Option, some, length,
  length-append, if◌then◌else◌, All, arith, append_assoc, append-nil,
}
use uefi_async.Macros.Nano.{
  Syn, TaskEntry, ExecutorEntry, whole, collect, parse_task, parse_executor, parse_input, task,
  statements,
}

-- Tokens by which the entries are written, and what the documentation of `syn` says of reading them.
pub record SynLaws {T E : Type 0} (syn : Syn T E) : Type 1 where
  pub arrow : T
  pub fat_arrow : T
  pub comma : T
  pub ident : ℕ → T
  pub braces : List T → T
  pub print : E → List T
  pub is_arrow_arrow : syn.is_arrow arrow ≡ true
  pub arrow_first : (ts : List T) → syn.parse_arrow (arrow ∷ ts) ≡ some ts
  pub fat_arrow_first : (ts : List T) → syn.parse_fat_arrow (fat_arrow ∷ ts) ≡ some ts
  pub ident_first : (n : ℕ) (ts : List T) → syn.parse_ident (ident n ∷ ts) ≡ some (n, ts)
  pub braces_first : (body ts : List T) → syn.braced (braces body ∷ ts) ≡ some (body, ts)
  -- An expression ends before a comma and at the end.
  pub expr_last : (e : E) → syn.parse_expr (print e) ≡ some (e, [])
  pub expr_comma :
      (e : E) (ts : List T) → syn.parse_expr (print e ++ comma ∷ ts) ≡ some (e, comma ∷ ts)
  pub terminated_none :
      {A : Type 0} (p : List T → Option (A × List T)) → syn.parse_terminated p [] ≡ some []
  pub terminated_last :
      {A : Type 0} (p : List T → Option (A × List T)) (ts : List T) (a : A)
      → ts ≢ []
      → p ts ≡ some (a, [])
      → syn.parse_terminated p ts ≡ some (a ∷ [])
  pub terminated_more :
      {A : Type 0} (p : List T → Option (A × List T)) (ts rest : List T) (a : A) (bs : List A)
      → length rest < length ts
      → p ts ≡ some (a, comma ∷ rest)
      → syn.parse_terminated p rest ≡ some bs
      → syn.parse_terminated p ts ≡ some (a ∷ bs)

module _ {T E : Type 0} (syn : Syn T E) (laws : SynLaws syn) where
  -- Elements with commas between them, and one behind the last if `trailing`.
  abbrev pub terminated : {A : Type 0} → (A → List T) → Bool → List A → List T
  terminated print trailing [] = []
  terminated print trailing (a ∷ []) = print a ++ (if trailing then laws.comma ∷ [] else [])
  terminated print trailing (a ∷ b ∷ bs) =
      print a ++ laws.comma ∷ terminated print trailing (b ∷ bs)

  abbrev pub print_task : TaskEntry E → List T
  print_task t = laws.print t.freq ++ laws.arrow ∷ laws.print t.func

  abbrev pub print_executor : Bool → ExecutorEntry E → List T
  print_executor trailing e =
      laws.ident e.name ∷ laws.fat_arrow ∷ laws.braces (terminated print_task trailing e.tasks) ∷ []

  -- The frequencies are written without arrows.
  abbrev pub Plain : ExecutorEntry E → Type 0
  Plain e = All (λ t. All (λ u. syn.is_arrow u ≡ false) (laws.print t.freq)) e.tasks

  abbrev Parses : {A : Type 0} → (List T → Option (A × List T)) → (A → List T) → A → Type 0
  Parses p print a =
      (print a ≢ [])
      × (p (print a) ≡ some (a, []))
      × ((ts : List T) → p (print a ++ laws.comma ∷ ts) ≡ some (a, laws.comma ∷ ts))

  nonempty-append : (xs : List T) (y : T) (ys : List T) → xs ++ y ∷ ys ≢ []
  nonempty-append xs y ys e = omega (arith, length-append xs (y ∷ ys), ap length e)

  parse_terminated-terminated :
      {A : Type 0} (p : List T → Option (A × List T)) (print : A → List T) (trailing : Bool)
      (bs : List A)
      → All (Parses p print) bs
      → syn.parse_terminated p (terminated print trailing bs) ≡ some bs
  parse_terminated-terminated p print trailing [] h = laws.terminated_none p
  parse_terminated-terminated p print true (a ∷ []) ((ne, last, more), h) =
      laws.terminated_more p (print a ++ laws.comma ∷ []) [] a []
        (omega (arith, length-append (print a) (laws.comma ∷ []))) (more [])
        (laws.terminated_none p)
  parse_terminated-terminated p print false (a ∷ []) ((ne, last, more), h) =
      subst (λ ts. syn.parse_terminated p ts ≡ some (a ∷ [])) (sym (append-nil (print a)))
        (laws.terminated_last p (print a) a ne last)
  parse_terminated-terminated p print trailing (a ∷ b ∷ bs) ((ne, last, more), h) =
      let rest = terminated print trailing (b ∷ bs) in
      laws.terminated_more p (print a ++ laws.comma ∷ rest) rest a (b ∷ bs)
        (omega (arith, length-append (print a) (laws.comma ∷ rest))) (more rest)
        (parse_terminated-terminated p print trailing (b ∷ bs) h)

  collect-arrow :
      (xs ts : List T)
      → All (λ u. syn.is_arrow u ≡ false) xs
      → collect syn (xs ++ laws.arrow ∷ ts) ≡ (xs, laws.arrow ∷ ts)
  unfolding collect
  collect-arrow [] ts h = rw (laws.is_arrow_arrow)
  collect-arrow (x ∷ xs) ts (e, h) = rw (e, collect-arrow xs ts h)

  parse_task-Parses :
      (t : TaskEntry E)
      → All (λ u. syn.is_arrow u ≡ false) (laws.print t.freq)
      → Parses (parse_task syn) print_task t
  unfolding parse_task whole
  parse_task-Parses t h = (
    nonempty-append (laws.print t.freq) laws.arrow (laws.print t.func),
    rw (
      collect-arrow (laws.print t.freq) (laws.print t.func) h,
      laws.expr_last t.freq,
      laws.arrow_first (laws.print t.func),
      laws.expr_last t.func,
    ),
    λ ts. rw (
      append_assoc (laws.print t.freq) (laws.arrow ∷ laws.print t.func) (laws.comma ∷ ts),
      collect-arrow (laws.print t.freq) (laws.print t.func ++ laws.comma ∷ ts) h,
      laws.expr_last t.freq,
      laws.arrow_first (laws.print t.func ++ laws.comma ∷ ts),
      laws.expr_comma t.func ts,
    ),
  )

  tasks-Parse :
      (tasks : List (TaskEntry E))
      → All (λ t. All (λ u. syn.is_arrow u ≡ false) (laws.print t.freq)) tasks
      → All (Parses (parse_task syn) print_task) tasks
  tasks-Parse [] h = tt
  tasks-Parse (t ∷ ts) (h, rest) = (parse_task-Parses t h, tasks-Parse ts rest)

  parse_executor-print :
      (trailing : Bool) (e : ExecutorEntry E) (ts : List T)
      → Plain e
      → parse_executor syn (print_executor trailing e ++ ts) ≡ some (e, ts)
  unfolding parse_executor
  parse_executor-print trailing e ts h = rw (
    laws.ident_first e.name
        (laws.fat_arrow ∷ laws.braces (terminated print_task trailing e.tasks) ∷ ts),
    laws.fat_arrow_first (laws.braces (terminated print_task trailing e.tasks) ∷ ts),
    laws.braces_first (terminated print_task trailing e.tasks) ts,
    parse_terminated-terminated (parse_task syn) print_task trailing e.tasks
        (tasks-Parse e.tasks h),
  )

  executors-Parse :
      (trailing : Bool) (es : List (ExecutorEntry E))
      → All Plain es
      → All (Parses (parse_executor syn) (print_executor trailing)) es
  executors-Parse trailing [] h = tt
  executors-Parse trailing (e ∷ es) (h, rest) = (
    (
      nonempty-append [] _ _,
      parse_executor-print trailing e [] h,
      λ ts. parse_executor-print trailing e (laws.comma ∷ ts) h,
    ),
    executors-Parse trailing es rest,
  )

  -- For entries whose frequencies are written without arrows: `nano!` of the text of these entries,
  -- with or without a comma behind the last task of an executor and behind the last executor, expands
  -- to the statements of the same entries.
  pub task-print :
      (inner outer : Bool) (es : List (ExecutorEntry E))
      → All Plain es
      → task syn (terminated (print_executor inner) outer es) ≡ some (statements 0 es)
  unfolding task parse_input
  task-print inner outer es h = rw (
      parse_terminated-terminated (parse_executor syn) (print_executor inner) outer es
        (executors-Parse inner es h))
