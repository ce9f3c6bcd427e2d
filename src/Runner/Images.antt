-- ===== src/Runner/Images.antt =====
-- The commands by which the runner (tools/qemu-test/src/main.rs) builds the test application and its disk
-- image.
use Prim.Native.String.{String, ◌++◌ as ◌<>◌}
use uefi_async.Base.{
  ℕ, Bool, true, false, not, List, [], ◌∷◌, Option, none, some, Result, ok, err, if◌then◌else◌,
}
use uefi_async.Runner.Host.{
  Output, Fault, not_spawned, failed, build_failed, efi_missing, no_fat_tool, not_staged, Host,
  Action, ◌>>=◌, ◌>>◌, pure, fail, attempt, or_fault,
}

abbrev pub tool_dir : String
tool_dir = "tools/qemu-test"

abbrev root : String
root = tool_dir <> "/../.."

abbrev pub ovmf : String
ovmf = tool_dir <> "/assets/ovmf-release-x86_64-code.fd"

module _ {W : Type 0} (host : Host W) where
  unfoldable pub stdout_of : String → Output → Action W String
  stdout_of cmd out = if out.success then pure out.stdout else fail (failed cmd out)

  unfoldable pub run : String → List String → Action W String
  run cmd args = do
    out ← λ w. or_fault (not_spawned cmd) (host.output none cmd args w)
    stdout_of cmd out

  unfoldable pub first_existing : List String → Action W String
  first_existing [] = fail efi_missing
  first_existing (p ∷ ps) = λ w. if host.exists p w then (ok p, w) else first_existing ps w

  unfoldable pub built : Output → Action W String
  built out =
      if not out.success
      then fail (build_failed out)
      else first_existing (
          (root <> "/target/x86_64-unknown-uefi/debug/my-testy.efi")
          ∷ (root <> "/target/x86_64-unknown-uefi/release/my-testy.efi")
          ∷ [])

  unfoldable pub build_testy : Action W String
  build_testy = do
    out ← λ w. or_fault (not_spawned "cargo") (
        host.output (some root) "cargo"
          ("build" ∷ "-p" ∷ "my-testy" ∷ "--target" ∷ "x86_64-unknown-uefi" ∷ []) w)
    built out

  unfoldable pub format_with : String → Result Fault String → Action W String
  format_with path (ok which) = do
    run "mformat" ("-i" ∷ path ∷ "-C" ∷ "-F" ∷ "-v" ∷ "UEFIASYNC" ∷ "::" ∷ [])
    pure "mtools"
  format_with path (err e) = fail no_fat_tool

  unfoldable pub make_fat_image : String → Action W String
  make_fat_image path = do which ← attempt (run "which" ("mformat" ∷ [])); format_with path which

  unfoldable pub written : Bool × W → Option (Unit {0}) × W
  written (true, w) = (some tt, w)
  written (false, w) = (none, w)

  -- For a file system that was made with `mtools`.
  unfoldable pub populate : String → List ℕ → Action W (Unit {0})
  populate image efi =
      let stage = image <> ".stage" in
      do
        λ w. or_fault not_staged (written (host.write stage efi w))
        attempt (run "mmd" ("-i" ∷ image ∷ "::/EFI" ∷ []))
        attempt (run "mmd" ("-i" ∷ image ∷ "::/EFI/BOOT" ∷ []))
        run "mcopy" ("-i" ∷ image ∷ "-o" ∷ stage ∷ "::/EFI/BOOT/BOOTX64.EFI" ∷ [])
        λ w. (ok tt, host.remove_file stage w)

  unfoldable pub pick_accel : W → List String
  pick_accel w = if host.exists "/dev/kvm" w then "-accel" ∷ "kvm" ∷ [] else "-accel" ∷ "tcg" ∷ []
