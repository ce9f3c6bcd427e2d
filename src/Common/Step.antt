-- ===== src/Common/Step.antt =====
-- async/src/common/step.rs: futures that give up the processor for a number of polls, and the pacer.
pub mod Pauses
pub mod Paces
pub mod Tests
use uefi_async.Base.{
  ℕ, zero, suc, ◌-◌, Bool, true, false, Option, none, some, Poll, ready, pending, PollFn, ltb, ◌==◌,
  if◌then◌else◌,
}

-- `_Yield::poll`
abbrev pub poll_yield : {W : Type 0} → PollFn Bool (Unit {0}) W
poll_yield true w = (ready tt, true, w)
poll_yield false w = (pending, true, w)

-- `Skip::poll`
abbrev pub poll_skip : {W : Type 0} → PollFn ℕ (Unit {0}) W
poll_skip zero w = (ready tt, zero, w)
poll_skip (suc n) w = (pending, n, w)

-- What `Pacer::step` awaits: `Yield` or `Skip`.
pub data Wait : Type 0 where
  yields : Bool → Wait
  skips : ℕ → Wait

abbrev pub poll_wait : {W : Type 0} → PollFn Wait (Unit {0}) W
poll_wait (yields b) w = let (r, b', w') = poll_yield b w in (r, yields b', w')
poll_wait (skips n) w = let (r, n', w') = poll_skip n w in (r, skips n', w')

pub record Pacer : Type 0 where
  pub count : ℕ
  pub countdown : ℕ

abbrev pub new : ℕ → Pacer
new count = record { count = count; countdown = count }

abbrev pub count_update : Pacer → ℕ → Pacer
count_update p count = record p { count = count }

-- `Pacer::step`: what it awaits, if anything, and the pacer, which it does not change after that.
unfoldable pub step : Pacer → ℕ → Bool → Option Wait × Pacer
step p yield_count repeat =
    if ltb 0 p.countdown then (none, record p { countdown = p.countdown - 1 }) else (
      some (if yield_count == 0 then yields false else skips yield_count),
      if repeat then record p { countdown = p.count } else p,
    )

abbrev pub throttle : Pacer → Option Wait × Pacer
throttle p = step p 0 false

abbrev pub repeat : Pacer → Option Wait × Pacer
repeat p = step p 0 true

abbrev pub burst : Pacer → ℕ → Option Wait × Pacer
burst p i = step p i true
