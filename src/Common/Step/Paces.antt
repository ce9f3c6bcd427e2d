-- ===== src/Common/Step/Paces.antt =====
-- The pace that a `Pacer` (async/src/common/step.rs) gives a loop.
use native.Mathlib.Nat.{div-eq_of_lt, add-div_right}
use uefi_async.Base.{
  ℕ, zero, suc, ◌+◌, ◌*◌, ◌/◌, ◌-◌, ◌≤◌, ◌≡◌, Bool, true, false, Option, none, some, arith, ◌==◌,
  if◌then◌else◌, ap, ◌∙◌, sym,
}
use uefi_async.Common.Step.{Wait, Pacer, step}
use uefi_async.Common.Step.Pauses.{pauses}

abbrev pub polls : Option Wait → ℕ
polls none = 0
polls (some w) = pauses w

-- The pending polls of `n` calls of `step` with the same arguments, one after the other.
abbrev pub calls : ℕ → Pacer → ℕ → Bool → ℕ
calls zero p i r = 0
calls (suc n) p i r = let (w, p') = step p i r in polls w + calls n p' i r

-- One call's pending polls when it waits.
abbrev pub cost : ℕ → ℕ
cost i = if i == 0 then 1 else i

abbrev pacer : ℕ → ℕ → Pacer
pacer count c = record { count = count; countdown = c }

calls_zero :
    (n count i : ℕ) (r : Bool)
    → calls (suc n) (pacer count 0) i r
      ≡ cost i + calls n (pacer count (if r then count else 0)) i r
unfolding step
calls_zero n count i true = ground arith
calls_zero n count i false = ground arith

calls-suc :
    (n count c i : ℕ) (r : Bool)
    → calls (suc n) (pacer count (suc c)) i r ≡ calls n (pacer count c) i r
unfolding step
calls-suc n count c i r = ground arith

-- `k` more per unit.
one_more : (n k : ℕ) → k + n * k ≡ (n + 1) * k
one_more n k = omega arith

none_left : (k : ℕ) → 0 * k ≡ 0
none_left k = omega arith

-- `n` calls of `repeat` (`i` is 0) or `burst` wait once in every `count + 1` calls.
pub calls_repeat :
    (n count c i : ℕ)
    → c ≤ count
    → calls n (pacer count c) i true ≡ (n + count - c) / (count + 1) * cost i
calls_repeat zero count c i le =
    sym (ap (λ q. q * cost i) {y = 0} (div-eq_of_lt (omega arith)) ∙ none_left (cost i))
calls_repeat (suc n) count zero i le =
    calls_zero n count i true
    ∙ ap (λ m. cost i + m) (calls_repeat n count count i (omega arith))
    ∙ one_more ((n + count - count) / (count + 1)) (cost i)
    ∙ ap (λ q. q * cost i)
        (sym (add-div_right (n + count - count) (omega arith))
          ∙ ap (λ m. m / (count + 1)) (omega arith))
calls_repeat (suc n) count (suc c) i le =
    calls-suc n count c i true
    ∙ calls_repeat n count c i (omega arith)
    ∙ ap (λ m. m / (count + 1) * cost i) (omega arith)

-- `n` calls of `throttle` (`i` is 0) wait at each call behind the first `c`.
pub calls_throttle : (n count c i : ℕ) → calls n (pacer count c) i false ≡ (n - c) * cost i
calls_throttle zero count c i =
    sym (none_left (cost i)) ∙ ap (λ q. q * cost i) {x = 0} {y = 0 - c} (omega arith)
calls_throttle (suc n) count zero i =
    calls_zero n count i false
    ∙ ap (λ m. cost i + m) (calls_throttle n count 0 i)
    ∙ one_more (n - 0) (cost i)
    ∙ ap (λ q. q * cost i) (omega arith)
calls_throttle (suc n) count (suc c) i =
    calls-suc n count c i false ∙ calls_throttle n count c i ∙ ap (λ m. m * cost i) (omega arith)
