-- ===== src/Common/Step/Pauses.antt =====
-- How long the futures of async/src/common/step.rs are pending.
use uefi_async.Base.{ℕ, zero, suc, refl, true, false, Finishes}
use uefi_async.Common.Step.{Wait, yields, skips, poll_wait}

-- The pending polls of a wait.
abbrev pub pauses : Wait → ℕ
pauses (yields true) = 0
pauses (yields false) = 1
pauses (skips n) = n

-- `Skip(n)` is pending at `n` polls, `Yield` at one, and each is ready at the next.
pub wait-Finishes : (W : Type 0) (w : Wait) → Finishes {W = W} poll_wait (pauses w) tt w
wait-Finishes W (yields true) = λ w. refl
wait-Finishes W (yields false) = λ w. (refl, λ w'. refl)
wait-Finishes W (skips zero) = λ w. refl
wait-Finishes W (skips (suc n)) = λ w. (refl, wait-Finishes W (skips n))
