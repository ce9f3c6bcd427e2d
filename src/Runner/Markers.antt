-- ===== src/Runner/Markers.antt =====
-- `wait_marker` of tools/qemu-test/src/main.rs: the loop that waits for a marker in the serial log.
pub mod Rounds
use Prim.Native.String.{String}
use text.Mathlib.Text.{find?}
use uefi_async.Base.{
  ℕ, zero, suc, ◌+◌, ◌-◌, ◌*◌, ◌/◌, ◌≤◌, Bool, true, false, Option, none, some, leb, Option-cases,
  le→leb, if◌then◌else◌, ◌≡◌, refl, sym, ap, ◌∙◌, inl, inr, arith,
}
use uefi_async.Runner.Host.{Host, unwrap_or}

unfoldable pub contains : String → String → Bool
contains log marker = elim (find? log marker) [ none ↦ false | some at ↦ true ]

-- What `wait_marker` returns: `passed` for `true`, the others for `false` with its message.
pub data Verdict : Type 0 where
  passed : Verdict
  exited : Option ℕ → Verdict
  test_failed : Verdict
  panicked : Verdict
  timed_out : Verdict

module _ {W : Type 0} (host : Host W) where
  -- One round of the loop of `wait_marker` up to its pause: what it returns, if it does.
  unfoldable pub decide : Option (Option (Option ℕ)) → String → Bool → Option Verdict
  decide (some (some code)) log late = some (exited code)
  decide status log late =
      if contains log "SELFTEST PASS"
      then some passed
      else if contains log "SELFTEST FAIL"
      then some test_failed
      else if contains log "panicked at"
      then some panicked
      else if late
      then some timed_out
      else none

  unfoldable pub look : String → ℕ → ℕ → W → Option Verdict × W
  look path timeout start w =
      let (status, w') = host.try_wait w in
      (
        decide status (unwrap_or "" (host.read_to_string path w'))
            (leb timeout (host.now w' - start)),
        w',
      )

  unfoldable pub after_look : (W → Option Verdict × W) → Option Verdict × W → Option Verdict × W
  after_look next (some v, w) = (some v, w)
  after_look next (none, w) = next (host.sleep 500 w)

  -- `wait_marker` from one round on, for at most so many rounds.
  unfoldable pub wait_from : ℕ → String → ℕ → ℕ → W → Option Verdict × W
  wait_from zero path timeout start w = (none, w)
  wait_from (suc n) path timeout start w =
      after_look (λ u. wait_from n path timeout start u) (look path timeout start w)

  unfoldable pub wait_marker : String → ℕ → W → Option Verdict × W
  wait_marker path timeout w = wait_from (suc (timeout / 500 + 1)) path timeout (host.now w) w
