-- ===== src/Macros/Init.antt =====
-- `init` of macros/src/lib.rs, behind the attribute on a module: the check of its items and the entry
-- point that is put behind them. The module is parsed by the crate `syn`.
pub mod Checks
mod Tests
use Prim.Native.String.{String}
use text.Mathlib.Text.{◌==◌}
use uefi_async.Base.{
  ℕ, zero, suc, Bool, true, false, List, [], ◌∷◌, ◌++◌, map, Option, none, some, Result, ok, err,
  if◌then◌else◌,
}

-- An item of the module: a function by its name, whether it is `async`, and how many inputs it has.
pub data Item : Type 0 where
  function : String → Bool → ℕ → Item
  use_item : Item
  other : Item

-- The compile errors.
pub data Refusal : Type 0 where
  no_body : Refusal
  not_allowed : String → Refusal
  must_be_async : String → Refusal
  must_not_be_async : String → Refusal
  has_inputs : String → Refusal
  not_an_item : Refusal

-- An item of the module that is generated. In front of it goes a static, which lets the attribute be used
-- only once.
pub data Generated : Type 0 where
  given : Item → Generated
  entry_fn : Generated

-- Each function name with whether it must be `async`.
abbrev pub allowed_functions : List (String × Bool)
allowed_functions =
    ("master_setup", true)
    ∷ ("agent_setup", true)
    ∷ ("agent_main", true)
    ∷ ("agent_idle", false)
    ∷ ("on_panic", false)
    ∷ ("on_error", false)
    ∷ ("on_exit", false)
    ∷ []

unfoldable pub find : String → List (String × Bool) → Option Bool
find name [] = none
find name ((n, should_be_async) ∷ rest) =
    let later = find name rest in if n == name then some should_be_async else later

unfoldable pub check_async : String → Bool → Bool → Option Refusal
check_async name true false = some (must_be_async name)
check_async name false true = some (must_not_be_async name)
check_async name true true = none
check_async name false false = none

unfoldable pub check_inputs : String → ℕ → Option Refusal
check_inputs name zero = none
check_inputs name (suc n) = some (has_inputs name)

unfoldable pub or_else : Option Refusal → Option Refusal → Option Refusal
or_else (some e) o = some e
or_else none o = o

unfoldable pub check_function : String → Bool → ℕ → Option Bool → Option Refusal
check_function name is_async inputs none = some (not_allowed name)
check_function name is_async inputs (some should_be_async) =
    or_else (check_async name should_be_async is_async) (check_inputs name inputs)

unfoldable pub check_item : Item → Option Refusal
check_item (function name is_async inputs) =
    check_function name is_async inputs (find name allowed_functions)
check_item use_item = none
check_item other = some not_an_item

-- The loop over the items.
unfoldable pub check_items : List Item → Option Refusal
check_items [] = none
check_items (item ∷ items) = or_else (check_item item) (check_items items)

unfoldable pub expand : List Item → Option Refusal → Result Refusal (List Generated)
expand items none = ok (map given items ++ entry_fn ∷ [])
expand items (some e) = err e

-- `init`, for the items in the braces of the module, if it has any.
unfoldable pub init : Option (List Item) → Result Refusal (List Generated)
init none = err no_body
init (some items) = expand items (check_items items)
