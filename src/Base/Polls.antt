-- ===== src/Base/Polls.antt =====
-- `core::task::Poll`, and a future as its state with a poll function. A poll may read and change a
-- world `W` that futures share; the waker in its context is part of that world.
use Prim.Native.Nat.{ℕ, zero, suc}
use mathlib.Core.Path.{◌≡◌, refl}
use mathlib.Core.Bool.{Bool, true, false}

pub data Poll {ℓ} (A : Type ℓ) : Type ℓ where
  ready : A → Poll A
  pending : Poll A

-- `core::result::Result`
pub data Result (E A : Type 0) : Type 0 where
  ok : A → Result E A
  err : E → Result E A

-- `Future::poll` of a future with state `F` and output `A`.
abbrev pub PollFn : Type 0 → Type 0 → Type 0 → Type 0
PollFn F A W = F → W → Poll A × F × W

abbrev pub is_ready {ℓ} : {A : Type ℓ} → Poll A → Bool
is_ready (ready a) = true
is_ready pending = false

-- The state after `n` polls, the results ignored.
abbrev pub poll_times : {F A W : Type 0} → PollFn F A W → ℕ → F → W → F × W
poll_times poll zero f w = (f, w)
poll_times poll (suc n) f w = let (r, f', w') = poll f w in poll_times poll n f' w'

-- A future that is ready at its poll number `n + 1`, as `Skip` is: for tests.
abbrev pub countdown : {W : Type 0} → PollFn ℕ (Unit {0}) W
countdown zero w = (ready tt, 0, w)
countdown (suc n) w = (pending, n, w)

-- The future is pending at its first `n` polls and then ready with `a`, whatever happens to the
-- world between its polls.
abbrev pub Finishes : {F A W : Type 0} → PollFn F A W → ℕ → A → F → Type 0
Finishes {W} poll zero a f = (w : W) → (poll f w).0 ≡ ready a
Finishes {W} poll (suc n) a f = (w : W) → ((poll f w).0 ≡ pending) × Finishes poll n a (poll f w).1

-- A future that finishes with a given output after so many pending polls: for tests.
abbrev pub delayed : {A : Type 0} → PollFn (ℕ × A) A (Unit {0})
delayed (zero, a) w = (ready a, (0, a), w)
delayed (suc n, a) w = (pending, (n, a), w)

pub delayed-Finishes : {A : Type 0} (n : ℕ) (a : A) → Finishes delayed n a (n, a)
delayed-Finishes zero a = λ w. refl
delayed-Finishes (suc n) a = λ w. (refl, delayed-Finishes n a)
