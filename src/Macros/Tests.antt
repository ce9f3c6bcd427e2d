-- ===== src/Macros/Tests.antt =====
-- The macros of macros/src/nano.rs with three expressions, which are numbers here.
use uefi_async.Base.{
  ℕ, ◌+◌, ◌%◌, ◌≡◌, List, [], ◌∷◌, map, some, true, false, ◌==◌, if◌then◌else◌, delayed,
  delayed-Finishes,
}
use uefi_async.Common.Control.{Tried, ok, err}
use uefi_async.Macros.{
  JoinCode, await, join, Tree, Pattern, plain, JoinAllCode, join_all, match_on, select,
}
use uefi_async.Macros.Polled.{join_all_future, select_future, join_all-Ends, select-Ends}
use uefi_async.Macros.Futures.{Future, Ends, then_with}
use uefi_async.Macros.Joins.{join_future, try_future, join-Ends, try_join-Ends}
use uefi_async.Macros.Selects.{first_fit}

-- An expression is a future that is ready after so many pending polls.
abbrev counted : ℕ → Future (Unit {0}) (Unit {0})
counted n = record { State = ℕ × Unit; poll = delayed; start = (n, tt) }

join-Ends_example :
    (code : JoinCode ℕ) × (joined : Future (Unit {0}) (Unit {0})) × (join (2 ∷ 5 ∷ 3 ∷ []) false
      ≡ some code)
    × (join_future counted code ≡ some joined)
    × Ends 5 tt joined
join-Ends_example =
    join-Ends counted (λ n. n) (2 ∷ 5 ∷ 3 ∷ [])
      (delayed-Finishes 2 tt, (delayed-Finishes 5 tt, (delayed-Finishes 3 tt, tt)))

-- Even numbers fail.
abbrev result : ℕ → Tried ℕ
result n = if n % 2 == 0 then err n else ok

abbrev fallible : ℕ → Future (Tried ℕ) (Unit {0})
fallible n = record { State = ℕ × Tried ℕ; poll = delayed; start = (n, result n) }

try_join-Ends_example :
    (tree : Tree ℕ) × (join (3 ∷ 4 ∷ 2 ∷ []) true ≡ some (await true tree))
    × Ends 2 (err 2) (try_future fallible tree)
try_join-Ends_example =
    try_join-Ends fallible (λ n. (n, result n)) 3 (4 ∷ 2 ∷ [])
      (delayed-Finishes 3 ok, (delayed-Finishes 4 (err 4), (delayed-Finishes 2 (err 2), tt)))

-- A future that is ready with its number plus 70.
abbrev numbered : ℕ → Future ℕ (Unit {0})
numbered n = record { State = ℕ × ℕ; poll = delayed; start = (n, n + 70) }

join_all-Ends_example :
    (code : JoinAllCode ℕ) × (join_all (2 ∷ 5 ∷ 3 ∷ []) ≡ some code)
    × Ends 5
        (some (map (λ (e : ℕ). plain (e + 70)) (2 ∷ 5 ∷ 3 ∷ [])))
        (join_all_future numbered code)
join_all-Ends_example =
    join_all-Ends numbered (λ n. n) (λ n. n + 70) (2 ∷ 5 ∷ 3 ∷ [])
      (delayed-Finishes 2 72, (delayed-Finishes 5 75, (delayed-Finishes 3 73, tt)))

select-Ends_example :
    (tree : Tree ℕ) × (arms_of : List Pattern) × (select (4 ∷ 2 ∷ 3 ∷ [])
      ≡ some (match_on tree arms_of))
    × Ends 2 (some (1, plain 72)) (then_with (first_fit 0 arms_of) (select_future numbered tree))
select-Ends_example =
    select-Ends numbered (λ n. n) (λ n. n + 70) 4 2 (3 ∷ [])
      (delayed-Finishes 4 74, (delayed-Finishes 2 72, (delayed-Finishes 3 73, tt)))
