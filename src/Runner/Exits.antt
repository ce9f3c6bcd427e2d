-- ===== src/Runner/Exits.antt =====
-- `main` of tools/qemu-test/src/main.rs and its exit codes.
use Prim.Native.String.{String, ◌++◌ as ◌<>◌}
use mathlib.Core.Option
use uefi_async.Base.{
  ℕ, zero, suc, Bool, true, false, not, ◌&&◌, List, [], ◌∷◌, ◌++◌, Option, none, some, Result, ok,
  err, if◌then◌else◌, ◌≡◌, refl, sym, subst,
}
use uefi_async.Runner.Host.{Fault, Host, unwrap_or}
use uefi_async.Runner.Images.{tool_dir, ovmf, build_testy, make_fat_image, populate, pick_accel}
use uefi_async.Runner.Markers.{
  Verdict, passed, exited, test_failed, panicked, timed_out, wait_marker, contains,
}
use uefi_async.Runner.Markers.Rounds.{Clock, Seen, wait_marker_returns, Seen-passed}

abbrev pub rundir : String
rundir = tool_dir <> "/runs/smoke"

abbrev pub serial : String
serial = rundir <> "/serial.log"

abbrev pub image : String
image = rundir <> "/usb.img"

abbrev pub qemu_args : List String
qemu_args =
    "-M"
    ∷ "q35"
    ∷ "-device"
    ∷ "virtio-vga,xres=1280,yres=720"
    ∷ "-drive"
    ∷ ("if=pflash,format=raw,unit=0,file=" <> ovmf <> ",readonly=on")
    ∷ "-drive"
    ∷ ("file=" <> image <> ",format=raw,if=none,id=hd")
    ∷ "-device"
    ∷ "virtio-blk-pci,drive=hd"
    ∷ "-smp"
    ∷ "2"
    ∷ "-m"
    ∷ "512"
    ∷ "-display"
    ∷ "none"
    ∷ "-no-reboot"
    ∷ "-serial"
    ∷ ("file:" <> serial)
    ∷ "-monitor"
    ∷ "telnet:127.0.0.1:44600,server,nowait"
    ∷ []

unfoldable pub exit_code : Verdict → ℕ
exit_code passed = 0
exit_code v = 1

module _ {W : Type 0} (host : Host W) where
  unfoldable pub clean : Bool → W → W
  clean keep w = host.remove_file image (
      host.create_dir_all rundir
        (if host.exists rundir w && not keep then host.remove_dir_all rundir w else w))

  -- The end of `main` behind a step that may fail: an error is printed and ends the program with code 2.
  unfoldable pub or_exit : {A : Type 0} → Result Fault A × W → (A → W → Option ℕ × W) → Option ℕ × W
  or_exit (ok a, w) rest = rest a w
  or_exit (err e, w) rest = (some 2, w)

  -- The emulator is ended whatever the verdict is; `none` only if the rounds were too few.
  unfoldable pub finish : Option Verdict × W → Option ℕ × W
  finish (r, w) = (Option.map exit_code r, host.wait (host.kill w))

  unfoldable pub launch : W → Option ℕ × W
  launch w =
      let (started, w') = host.spawn "qemu-system-x86_64" (qemu_args ++ pick_accel host w) w in
      if started then finish (wait_marker host serial 180000 w') else (some 2, w')

  unfoldable pub use_efi : List ℕ → W → Option ℕ × W
  use_efi [] w = (some 2, w)
  use_efi (b ∷ bs) w =
      or_exit (make_fat_image host image w)
        (λ fstype w'. or_exit (populate host image (b ∷ bs) w') (λ done w''. launch w''))

  -- The exit code of the program.
  unfoldable pub main : Bool → W → Option ℕ × W
  main keep w =
      or_exit (build_testy host (clean keep w))
        (λ efi w'. use_efi (unwrap_or [] (host.read efi w')) w')

  -- The emulator was ended when the marker of a pass was in the log.
  abbrev pub Passed : W → Type 0
  Passed w =
      (seen : W) × (contains (unwrap_or "" (host.read_to_string serial seen)) "SELFTEST PASS"
        ≡ true)
      × (w ≡ host.wait (host.kill seen))

  -- What each exit code says: 0 of a pass, 1 that the emulator ran and was ended, 2 of a failure before.
  abbrev pub Exited : ℕ → W → Type 0
  Exited zero w = Passed w
  Exited (suc zero) w = (last : W) × (w ≡ host.wait (host.kill last))
  Exited (suc (suc zero)) w = Unit
  Exited (suc (suc (suc n))) w = ⊥

  abbrev pub Exits : Option ℕ × W → Type 0
  Exits (none, w) = ⊥
  Exits (some code, w) = Exited code w

  or_exit-Exits :
      {A : Type 0} (p : Result Fault A × W) (rest : A → W → Option ℕ × W)
      → ((a : A) (w : W) → Exits (rest a w))
      → Exits (or_exit p rest)
  unfolding or_exit
  or_exit-Exits (ok a, w) rest h = h a w
  or_exit-Exits (err e, w) rest h = tt

  finish-Exits :
      Clock host
      → (w : W) (v : Verdict) (w' : W) (k : ℕ) → Seen host serial 180000 (host.now w) k w v w'
      → Exits (finish (some v, w'))
  unfolding finish exit_code
  finish-Exits clock w passed w' k seen =
      (w', Seen-passed host k serial 180000 (host.now w) w w' seen, refl)
  finish-Exits clock w (exited c) w' k seen = (w', refl)
  finish-Exits clock w test_failed w' k seen = (w', refl)
  finish-Exits clock w panicked w' k seen = (w', refl)
  finish-Exits clock w timed_out w' k seen = (w', refl)

  launch-Exits : Clock host → (w : W) → Exits (launch w)
  unfolding launch
  launch-Exits clock w = go (host.spawn "qemu-system-x86_64" (qemu_args ++ pick_accel host w) w).0
    where
      w1 : W
      w1 = (host.spawn "qemu-system-x86_64" (qemu_args ++ pick_accel host w) w).1

      go :
          (b : Bool)
          → Exits (if b then finish (wait_marker host serial 180000 w1) else (some 2, w1))
      go true =
          let (k, v, w', le, e, seen) = wait_marker_returns host clock serial 180000 w1 in
          subst (λ p. Exits (finish p)) (sym e) (finish-Exits clock w1 v w' k seen)
      go false = tt

  use_efi-Exits : Clock host → (efi : List ℕ) (w : W) → Exits (use_efi efi w)
  unfolding use_efi
  use_efi-Exits clock [] w = tt
  use_efi-Exits clock (b ∷ bs) w = or_exit-Exits (make_fat_image host image w) _ λ fstype w'.
      or_exit-Exits (populate host image (b ∷ bs) w') _ λ done w''. launch-Exits clock w''

  -- On a system whose clock does not go back, the program always ends: with 0 only if the log had the
  -- marker of a pass, with 0 or 1 only after it has killed the emulator and waited for its end, and
  -- else with 2.
  pub main-Exits : Clock host → (keep : Bool) (w : W) → Exits (main keep w)
  unfolding main
  main-Exits clock keep w =
      or_exit-Exits (build_testy host (clean keep w)) _
        λ efi w'. use_efi-Exits clock (unwrap_or [] (host.read efi w')) w'
