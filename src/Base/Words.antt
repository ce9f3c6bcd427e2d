-- ===== src/Base/Words.antt =====
-- Machine words as native numbers: `u64` and `u32` arithmetic of `core`, with its wrap-around,
-- saturation and checks written out. A plain `+`, `-` or `*` of the source wraps, as it does in a
-- build without overflow checks; the lemmas that use it say when no wrap happens.
use Prim.Native.Nat.{ℕ, ◌+◌, ◌-◌, ◌*◌, ◌/◌, ◌%◌, ◌^◌, min}
use mathlib.Core.Option.{Option, none, some}
use uefi_async.Base.Tests.{◌==◌, if◌then◌else◌}

abbrev pub u64_max : ℕ
u64_max = 2 ^ 64 - 1

abbrev pub add_u64 : ℕ → ℕ → ℕ
add_u64 a b = (a + b) % 2 ^ 64

abbrev pub sub_u64 : ℕ → ℕ → ℕ
sub_u64 a b = (a + 2 ^ 64 - b) % 2 ^ 64

abbrev pub mul_u64 : ℕ → ℕ → ℕ
mul_u64 a b = (a * b) % 2 ^ 64

abbrev pub saturating_add : ℕ → ℕ → ℕ
saturating_add a b = min (a + b) u64_max

abbrev pub saturating_mul : ℕ → ℕ → ℕ
saturating_mul a b = min (a * b) u64_max

abbrev pub checked_div : ℕ → ℕ → Option ℕ
checked_div a b = if b == 0 then none else some (a / b)

abbrev pub unwrap_or {ℓ} : {A : Type ℓ} → Option A → A → A
unwrap_or none d = d
unwrap_or (some a) d = a

abbrev pub add_u32 : ℕ → ℕ → ℕ
add_u32 a b = (a + b) % 2 ^ 32

abbrev pub sub_u32 : ℕ → ℕ → ℕ
sub_u32 a b = (a + 2 ^ 32 - b) % 2 ^ 32
