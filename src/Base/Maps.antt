-- ===== src/Base/Maps.antt =====
-- Functions from numbers, as memories and families, updated at one place.
use Prim.Native.Nat.{ℕ}
use uefi_async.Base.Tests.{◌==◌, if◌then◌else◌}

abbrev pub assign {ℓ} : {A : Type ℓ} → (ℕ → A) → ℕ → A → ℕ → A
assign f i a j = if i == j then a else f j
