-- ===== src/Common/Time/Timers.antt =====
-- When the timers of async/src/common/time.rs expire.
use uefi_async.Base.{
  ℕ, ◌+◌, ◌*◌, ◌^◌, ◌≤◌, ◌<◌, ◌≡◌, arith, ready, pending, leb, if◌then◌else◌, u64_max,
}
use uefi_async.Common.Tick.{ClockFreq}
use uefi_async.Common.Time.{poll_timer, from_s}

-- A timer for `n` seconds whose deadline fits the counter is ready exactly from the reading
-- `now + n * hz` on.
pub from_s_lem :
    (freq : ClockFreq) (now n later : ℕ)
    → now + n * freq.hz < 2 ^ 64
    → poll_timer (from_s freq now n) later
      ≡ (if leb (now + n * freq.hz) later then ready tt else pending)
from_s_lem freq now n later fits = ground arith

-- A timer whose wait saturates at `u64::MAX` is ready at once, for `after` adds with wrap-around: the
-- longest waits do not wait.
pub from_s_saturated :
    (freq : ClockFreq) (now n later : ℕ)
    → 0 < now
    → now < 2 ^ 64
    → u64_max ≤ n * freq.hz
    → now ≤ later
    → poll_timer (from_s freq now n) later ≡ ready tt
from_s_saturated freq now n later started fits big le = ground arith
