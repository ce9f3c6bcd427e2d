-- ===== src/Macros/Nano.antt =====
-- `nano!` of macros/src/nano.rs: its parsers and the statements that it generates. A token tree is a value
-- of `T`, a parsed expression one of `E`; names are numbers, and `__node_i_j` is the pair of `i` and `j`.
pub mod RoundTrip
pub mod Registers
mod Tests
use uefi_async.Base.{
  ℕ, suc, ◌≡◌, ◌≢◌, ◌<◌, Bool, true, false, List, [], ◌∷◌, ◌++◌, Option, none, some, length,
  if◌then◌else◌,
}

-- What the parsers call of the crate `syn`, on the tokens that are left: `parse::<Expr>()` and the others
-- return their value with the rest. `parse_terminated` parses to the end of the tokens.
pub record Syn (T E : Type 0) : Type 1 where
  pub is_arrow : T → Bool
  pub parse_expr : List T → Option (E × List T)
  pub parse_ident : List T → Option (ℕ × List T)
  pub parse_arrow : List T → Option (List T)
  pub parse_fat_arrow : List T → Option (List T)
  pub braced : List T → Option (List T × List T)
  pub parse_terminated : {A : Type 0} → (List T → Option (A × List T)) → List T → Option (List A)

pub record TaskEntry (E : Type 0) : Type 0 where
  pub freq : E
  pub func : E

pub record ExecutorEntry (E : Type 0) : Type 0 where
  pub name : ℕ
  pub tasks : List (TaskEntry E)

infixl 1 ◌>>=◌
abbrev ◌>>=◌ : {A B : Type 0} → Option A → (A → Option B) → Option B
none >>= f = none
some a >>= f = f a

-- The statements of the generated code.
pub data Statement (E : Type 0) : Type 0 where
  declare : ℕ × ℕ → E → E → Statement E
  add_to : ℕ → ℕ × ℕ → Statement E

module _ {E : Type 0} where
  -- The inner loop of `task`, from task `j` on.
  unfoldable pub task_statements : ℕ → ℕ → ℕ → List (TaskEntry E) → List (Statement E)
  task_statements name i j [] = []
  task_statements name i j (t ∷ ts) =
      declare (i, j) t.func t.freq ∷ add_to name (i, j) ∷ task_statements name i (suc j) ts

  -- Its outer loop, from executor `i` on.
  unfoldable pub statements : ℕ → List (ExecutorEntry E) → List (Statement E)
  statements i [] = []
  statements i (e ∷ es) = task_statements e.name i 0 e.tasks ++ statements (suc i) es

-- `parse2` of an expression: all of the tokens are used.
unfoldable pub whole : {T E : Type 0} → Option (E × List T) → Option E
whole none = none
whole (some (e, [])) = some e
whole (some (e, t ∷ ts)) = none

module _ {T E : Type 0} (syn : Syn T E) where
  -- The loop of `TaskEntry::parse`: the tokens before the arrow, and the rest.
  unfoldable pub collect : List T → List T × List T
  collect [] = ([], [])
  collect (t ∷ ts) =
      let (tokens, rest) = collect ts in if syn.is_arrow t then ([], t ∷ ts) else (t ∷ tokens, rest)

  unfoldable pub parse_task : List T → Option (TaskEntry E × List T)
  parse_task input =
      let (tokens, rest) = collect input in
      do
        freq ← whole (syn.parse_expr tokens)
        after ← syn.parse_arrow rest
        (func, left) ← syn.parse_expr after
        some (record { freq = freq; func = func }, left)

  unfoldable pub parse_executor : List T → Option (ExecutorEntry E × List T)
  parse_executor input = do
    (name, after) ← syn.parse_ident input
    body ← syn.parse_fat_arrow after
    (content, left) ← syn.braced body
    tasks ← syn.parse_terminated parse_task content
    some (record { name = name; tasks = tasks }, left)

  -- `AddInput::parse`
  unfoldable pub parse_input : List T → Option (List (ExecutorEntry E))
  parse_input = syn.parse_terminated parse_executor

  -- `task`; `none` is a compile error.
  unfoldable pub task : List T → Option (List (Statement E))
  task input = do entries ← parse_input input; some (statements 0 entries)
