-- ===== src/Runner/Host.antt =====
-- What the runner (tools/qemu-test/src/main.rs) asks of its system, and actions that may fail.
use Prim.Native.String.{String}
use uefi_async.Base.{ℕ, Bool, List, Option, none, some, Result, ok, err}

-- `std::process::Output`
pub record Output : Type 0 where
  pub success : Bool
  pub stdout : String
  pub stderr : String

pub data Fault : Type 0 where
  not_spawned : String → Fault
  failed : String → Output → Fault
  build_failed : Output → Fault
  efi_missing : Fault
  no_fat_tool : Fault
  not_staged : Fault

-- What the program asks of the system, whose state is `W`, with the results that the program looks at.
-- `output` has the directory in which the command runs, if the program sets one; `try_wait` answers that
-- a process has ended with its exit code, if it has one.
pub record Host (W : Type 0) : Type 0 where
  pub output : Option String → String → List String → W → Option Output × W
  pub spawn : String → List String → W → Bool × W
  pub try_wait : W → Option (Option (Option ℕ)) × W
  pub kill : W → W
  pub wait : W → W
  pub exists : String → W → Bool
  pub read : String → W → Option (List ℕ)
  pub read_to_string : String → W → Option String
  pub write : String → List ℕ → W → Bool × W
  pub remove_file : String → W → W
  pub remove_dir_all : String → W → W
  pub create_dir_all : String → W → W
  -- milliseconds
  pub now : W → ℕ
  pub sleep : ℕ → W → W

-- `unwrap_or_default`
unfoldable pub unwrap_or {ℓ} : {A : Type ℓ} → A → Option A → A
unwrap_or d none = d
unwrap_or d (some a) = a

abbrev pub Action : Type 0 → Type 0 → Type 0
Action W A = W → Result Fault A × W

module _ {W : Type 0} where
  abbrev pub and_then : {A B : Type 0} → Result Fault A × W → (A → Action W B) → Result Fault B × W
  and_then (ok a, w) f = f a w
  and_then (err e, w) f = (err e, w)

  infixl 1 ◌>>=◌ ◌>>◌
  abbrev pub ◌>>=◌ : {A B : Type 0} → Action W A → (A → Action W B) → Action W B
  p >>= f = λ w. and_then (p w) f

  abbrev pub ◌>>◌ : {A B : Type 0} → Action W A → Action W B → Action W B
  p >> q = p >>= λ a. q

  abbrev pub pure : {A : Type 0} → A → Action W A
  pure a w = (ok a, w)

  abbrev pub fail : {A : Type 0} → Fault → Action W A
  fail e w = (err e, w)

  -- `let _ = …` and `….is_ok()`
  abbrev pub attempt : {A : Type 0} → Action W A → Action W (Result Fault A)
  attempt p w = (ok (p w).0, (p w).1)

  -- A call of the system that fails as `none`.
  abbrev pub or_fault : {A : Type 0} → Fault → Option A × W → Result Fault A × W
  or_fault e (none, w) = (err e, w)
  or_fault e (some a, w) = (ok a, w)
