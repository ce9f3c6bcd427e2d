-- ===== src/Common/Time.antt =====
-- async/src/common/time.rs: timers and deadlines in ticks of the cycle counter. `now` is what
-- `tick()` reads; the calibrated rates are a parameter.
pub mod Timers
pub mod Timeouts
pub mod Tests
use uefi_async.Base.{
  ℕ, zero, suc, ◌/◌, max, Bool, Poll, ready, pending, PollFn, leb, if◌then◌else◌, add_u64, mul_u64,
  saturating_add, saturating_mul, Result, ok, err,
}
use uefi_async.Common.Tick.{ClockFreq}

-- `WaitTimer`
pub record WaitTimer : Type 0 where
  pub deadline : ℕ

abbrev pub until : ℕ → WaitTimer
until deadline = record { deadline = deadline }

abbrev pub after : ℕ → ℕ → WaitTimer
after now ticks_to_wait = record { deadline = add_u64 now ticks_to_wait }

abbrev pub is_expired : WaitTimer → ℕ → Bool
is_expired t now = leb t.deadline now

-- `WaitTimer::poll`
abbrev pub poll_timer : WaitTimer → ℕ → Poll (Unit {0})
poll_timer t now = if is_expired t now then ready tt else pending

module _ (freq : ClockFreq) (now : ℕ) where
  abbrev pub from_year : ℕ → WaitTimer
  from_year y = after now (saturating_mul y (saturating_mul freq.hz 31536000))

  abbrev pub from_month : ℕ → WaitTimer
  from_month m = after now (saturating_mul m (mul_u64 freq.hz 2592000))

  abbrev pub from_week : ℕ → WaitTimer
  from_week w = after now (saturating_mul w (mul_u64 freq.hz 604800))

  abbrev pub from_day : ℕ → WaitTimer
  from_day d = after now (saturating_mul d (mul_u64 freq.hz 86400))

  abbrev pub from_hour : ℕ → WaitTimer
  from_hour h = after now (saturating_mul h (mul_u64 freq.hz 3600))

  abbrev pub from_min : ℕ → WaitTimer
  from_min min = after now (saturating_mul min (mul_u64 freq.hz 60))

  abbrev pub from_s : ℕ → WaitTimer
  from_s hz = after now (saturating_mul hz freq.hz)

  abbrev pub from_ms : ℕ → WaitTimer
  from_ms ms = after now (saturating_mul ms freq.ms)

  abbrev pub from_us : ℕ → WaitTimer
  from_us us = after now (saturating_mul us freq.us)

  abbrev pub from_ns : ℕ → WaitTimer
  from_ns ns = after now (saturating_mul ns freq.ns)

  abbrev pub from_ps : ℕ → WaitTimer
  from_ps ps = after now (saturating_mul ps freq.ps)

  abbrev pub from_fps : ℕ → WaitTimer
  from_fps fps = after now (freq.hz / max fps 1)

  -- `_WaitTimer::hz`; its other methods are the functions above under their short names.
  abbrev pub hz : ℕ → WaitTimer
  hz n = from_s n

-- `Timeout<F>`
pub record Timeout (F : Type 0) : Type 0 where
  pub future : F
  pub deadline : ℕ

-- `Timeout::new`, which `_Timeout::timeout` calls.
abbrev pub new_timeout : {F : Type 0} → ℕ → F → ℕ → Timeout F
new_timeout now future ticks = record { future = future; deadline = saturating_add now ticks }

-- `Timeout::poll` at the reading `now`.
unfoldable pub poll_timeout :
    {F A W : Type 0} → PollFn F A W → ℕ → PollFn (Timeout F) (Result (Unit {0}) A) W
poll_timeout poll now t w =
    if leb t.deadline now
    then (ready (err tt), t, w)
    else (let (r, f', w') = poll t.future w in
        let t' = record t { future = f' } in
        elim r [ ready val ↦ (ready (ok val), t', w') | pending ↦ (pending, t', w') ])
