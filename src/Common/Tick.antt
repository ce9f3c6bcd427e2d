-- ===== src/Common/Tick.antt =====
-- async/src/common/tick.rs: the calibration of the clock. A reading of the cycle counter is a
-- parameter of the code that takes it.
use uefi_async.Base.{ℕ, ◌/◌, ◌%◌, ◌≤◌, ◌<◌, ◌≡◌, ◌+◌, ◌*◌, ◌^◌, max, arith, mul_u64, sub_u64}

-- `ClockFreq`, the values of its atomics.
pub record ClockFreq : Type 0 where
  pub hz : ℕ
  pub ms : ℕ
  pub us : ℕ
  pub ns : ℕ
  pub ps : ℕ

-- `FREQ` before the calibration
abbrev pub uncalibrated : ClockFreq
uncalibrated = record { hz = 0; ms = 0; us = 0; ns = 0; ps = 0 }

-- `calc_freq_blocking`, with the two readings.
abbrev pub calc_freq_blocking : ℕ → ℕ → ℕ
calc_freq_blocking start end = mul_u64 (sub_u64 end start) 10

-- `init_clock_freq`, with the two readings: what it stores in `FREQ`; it returns `hz`.
abbrev pub init_clock_freq : ℕ → ℕ → ClockFreq
init_clock_freq start end =
    let hz = mul_u64 (sub_u64 end start) 20 in
    record {
      hz = hz;
      ms = max (hz / 1000) 1;
      us = max (hz / 1000000) 1;
      ns = max (hz / 1000000000) 1;
      ps = hz / 1000000000000;
    }

-- On a machine of at least 1 GHz (and below 9 * 10^17 Hz) whose counter advanced by `d` in the 50 ms
-- of the calibration, also over a wrap of the counter, the stored rates are those of `20 * d` ticks
-- a second, each less than one tick of its unit too low; `calc_freq_blocking` agrees with it if the
-- counter advances by `2 * d` in its 100 ms.
init_clock_freq_lem :
    (start d later : ℕ)
    → start < 2 ^ 64
    → later < 2 ^ 64
    → 50000000 ≤ d
    → d * 20 < 2 ^ 60
    → let freq = init_clock_freq start ((start + d) % 2 ^ 64) in
      let hz = d * 20 in
      (freq.hz ≡ hz)
      × (freq.ms * 1000 ≤ hz)
      × (hz < (freq.ms + 1) * 1000)
      × (freq.us * 1000000 ≤ hz)
      × (hz < (freq.us + 1) * 1000000)
      × (freq.ns * 1000000000 ≤ hz)
      × (hz < (freq.ns + 1) * 1000000000)
      × (freq.ps * 1000000000000 ≤ hz)
      × (hz < (freq.ps + 1) * 1000000000000)
      × (calc_freq_blocking later ((later + 2 * d) % 2 ^ 64) ≡ freq.hz)
init_clock_freq_lem start d later s l fast small = (
  omega arith,
  omega arith,
  omega arith,
  omega arith,
  omega arith,
  omega arith,
  omega arith,
  omega arith,
  omega arith,
  omega arith,
)
