-- ===== src/Macros/Futures.antt =====
-- Futures as values, to say what the code that the macros of macros/src/nano.rs generate does when it
-- is polled.
use uefi_async.Base.{ℕ, zero, suc, max, ap, List, [], ◌∷◌, PollFn, Poll, ready, pending, Finishes}

-- A future of some type, not polled yet.
pub record Future (A W : Type 0) : Type 1 where
  pub State : Type 0
  pub poll : PollFn State A W
  pub start : State

-- It is ready with `a` after `n` pending polls.
abbrev pub Ends : {A W : Type 0} → ℕ → A → Future A W → Type 0
Ends n a f = Finishes f.poll n a f.start

-- `async {}`
abbrev pub no_future : {W : Type 0} → Future (Unit {0}) W
no_future = record { State = Unit; poll = λ f w. (ready tt, f, w); start = tt }

-- The largest number of pending polls, 0 of no expression.
abbrev pub slowest : {E : Type 0} → (E → ℕ) → List E → ℕ
slowest n [] = 0
slowest n (x ∷ []) = n x
slowest n (x ∷ y ∷ ys) = max (n x) (slowest n (y ∷ ys))

-- A future whose output is put through a function.
abbrev pub map_ready : {A B : Type 0} → (A → B) → Poll A → Poll B
map_ready g (ready a) = ready (g a)
map_ready g pending = pending

abbrev pub mapped : {F A B W : Type 0} → (A → B) → PollFn F A W → PollFn F B W
mapped g poll f w = let (r, f', w') = poll f w in (map_ready g r, f', w')

pub mapped-Finishes :
    {F A B W : Type 0} (g : A → B) (poll : PollFn F A W) (n : ℕ) (a : A) (f : F)
    → Finishes poll n a f
    → Finishes (mapped g poll) n (g a) f
mapped-Finishes g poll zero a f h = λ w. ap (map_ready g) (h w)
mapped-Finishes g poll (suc n) a f h =
    λ w. (ap (map_ready g) (h w).0, mapped-Finishes g poll n a (poll f w).1 (h w).1)

abbrev pub then_with : {A B W : Type 0} → (A → B) → Future A W → Future B W
then_with g f = record { State = f.State; poll = mapped g f.poll; start = f.start }

pub then_with-Ends :
    {A B W : Type 0} (g : A → B) (n : ℕ) (a : A) (f : Future A W)
    → Ends n a f
    → Ends n (g a) (then_with g f)
then_with-Ends g n a f h = mapped-Finishes g f.poll n a f.start h
