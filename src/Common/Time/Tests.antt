-- ===== src/Common/Time/Tests.antt =====
-- The calibration, the timers and the deadlines at concrete readings.
use uefi_async.Base.{ℕ, ◌^◌, ◌≡◌, arith, refl, [], ◌∷◌, ready, ok, countdown}
use uefi_async.Common.Tick.{ClockFreq, init_clock_freq}
use uefi_async.Common.Time.{poll_timer, from_s, new_timeout}
use uefi_async.Common.Time.Timers.{from_s_saturated}
use uefi_async.Common.Time.Timeouts.{drive, timeout-in_time}

-- 3 GHz.
abbrev freq : ClockFreq
freq = init_clock_freq 7 150000007

from_s_saturated_example : poll_timer (from_s freq 5 (2 ^ 40)) 5 ≡ ready tt
from_s_saturated_example =
    from_s_saturated freq 5 (2 ^ 40) 5 (omega arith) (omega arith) (omega arith) (omega arith)

timeout-in_time_example :
    (drive (countdown {W = ℕ}) (10 ∷ 20 ∷ 30 ∷ []) (new_timeout 5 1 20) 0).0 ≡ ready (ok tt)
timeout-in_time_example =
    timeout-in_time countdown 5 20 (10 ∷ []) 20 (30 ∷ []) tt 1 0 (omega arith, tt) (omega arith)
      (λ w. (refl, λ w'. refl))
