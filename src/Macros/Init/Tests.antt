-- ===== src/Macros/Init/Tests.antt =====
-- A module with its setup, an idle function and a `use` item.
use mathlib.Core.Logic.{◌↔◌}
use uefi_async.Base.{◌≡◌, refl, true, false, List, [], ◌∷◌, ◌++◌, map, some, ok, err, All}
use uefi_async.Macros.Init.{
  Item, function, use_item, other, Refusal, must_not_be_async, given, entry_fn, init, find,
  check_item, check_items, check_function, check_async, check_inputs, or_else, expand,
}
use uefi_async.Macros.Init.Checks.{Allowed, Refused, init_iff}

abbrev items : List Item
items = use_item ∷ function "agent_setup" true 0 ∷ function "agent_idle" false 0 ∷ []

refused :
    init (some (use_item ∷ function "on_exit" true 2 ∷ other ∷ []))
    ≡ err (must_not_be_async "on_exit")
unfolding init expand check_items check_item check_function check_async check_inputs or_else find
refused = refl

init_iff_example :
    ((init (some items) ≡ ok (map given items ++ entry_fn ∷ [])) ↔ All Allowed items)
    × ((e : Refusal) → init (some items) ≡ err e → Refused items e)
init_iff_example = init_iff items
