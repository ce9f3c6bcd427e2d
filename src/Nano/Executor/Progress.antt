-- ===== src/Nano/Executor/Progress.antt =====
-- Tasks that finish after a bounded number of polls, in the nano executor
-- (async/src/nano_alloc/executor.rs).
use uefi_async.Base.{
  ℕ, suc, ◌+◌, ◌≤◌, ◌<◌, ◌^◌, ◌≡◌, refl, ◌-◌, Bool, true, false, List, [], ◌∷◌, pending, PollFn,
  length, All, arith,
}
use uefi_async.Nano.Executor.{TaskNode, Executor, pass, run_step, run_ticks}

-- Tick readings that never fall, from `t` on, below 2^64.
abbrev pub Rising : ℕ → List ℕ → Type 0
Rising t [] = t < 2 ^ 64
Rising t (u ∷ us) = (t ≤ u) × Rising u us

-- A task at frequency 0 that is due from `t` on.
abbrev pub Eager : {F : Type 0} → ℕ → TaskNode F → Type 0
Eager t n = (n.interval ≡ 0) × (n.next_run_time ≤ t)

module _ {F W : Type 0} (poll : PollFn F (Unit {0}) W) (left : F → ℕ) where
  -- Each poll that leaves the future pending brings it nearer to its end.
  abbrev pub Advances : Type 0
  Advances = (f : F) (w : W) → (poll f w).0 ≡ pending → left (poll f w).1 < left f

  -- Polls that the tasks of a list may still take.
  unfoldable pub work : List (TaskNode F) → ℕ
  work [] = 0
  work (n ∷ ns) = suc (left n.future) + work ns

  pass-work :
      Advances
      → (unlinked : Bool) (time : ℕ) (ns : List (TaskNode F)) (w : W) → time < 2 ^ 64
      → All (Eager time) ns
      → All (Eager time) (pass poll unlinked time ns w).0
        × (work (pass poll unlinked time ns w).0 ≤ work ns)
  unfolding pass work
  pass-work adv unlinked time [] w lt h = ground arith
  pass-work adv true time (n ∷ rest) w lt h = ground (arith, pass-work adv false time rest w lt)
  pass-work adv false time (n ∷ rest) w lt h =
      let (r, f, w') = poll n.future w in
      ground (
        arith,
        adv n.future w,
        pass-work adv false time rest w' lt h.1,
        pass-work adv true time rest w' lt h.1,
      )

  -- The first task of the list is always reached.
  pass_advances :
      Advances
      → (time : ℕ) (ns : List (TaskNode F)) (w : W) → time < 2 ^ 64
      → All (Eager time) ns
      → work (pass poll false time ns w).0 ≤ work ns - 1
  unfolding pass work
  pass_advances adv time [] w lt h = omega arith
  pass_advances adv time (n ∷ rest) w lt h =
      let (r, f, w') = poll n.future w in
      ground (
        arith,
        adv n.future w,
        pass-work adv false time rest w' lt h.1,
        pass-work adv true time rest w' lt h.1,
      )

  Eager-later : (t u : ℕ) (ns : List (TaskNode F)) → t ≤ u → All (Eager t) ns → All (Eager u) ns
  Eager-later t u [] le h = tt
  Eager-later t u (n ∷ ns) le h = ((h.0.0, omega arith), Eager-later t u ns le h.1)

  work-eq-zero : (ns : List (TaskNode F)) → work ns ≡ 0 → ns ≡ []
  unfolding work
  work-eq-zero [] h = refl
  work-eq-zero (n ∷ ns) h = absurd (omega arith)

  Rising-lt : (t : ℕ) (ts : List ℕ) → Rising t ts → t < 2 ^ 64
  Rising-lt t [] h = h
  Rising-lt t (u ∷ us) h = omega (arith, Rising-lt u us h.1)

  -- If the futures advance, all tasks run at frequency 0 and are due, and the tick counter never
  -- falls, then after as many passes as there is work the list is empty: every task has finished.
  pub run_ticks_completes :
      Advances
      → (e : Executor F) (t : ℕ) (ts : List ℕ) (w : W) → Rising t ts
      → All (Eager t) e.head
      → work e.head ≤ length ts
      → (run_ticks poll e ts w).0.head ≡ []
  unfolding run_ticks run_step
  run_ticks_completes adv e t [] w rise due enough = work-eq-zero e.head (omega arith)
  run_ticks_completes adv e t (u ∷ us) w rise due enough =
      let lt = Rising-lt u us rise.1 in
      let due' = Eager-later t u e.head rise.0 due in
      let (ns, w') = pass poll false u e.head w in
      run_ticks_completes adv (record e { head = ns }) u us w' rise.1
        (pass-work adv false u e.head w lt due').0
        (omega (arith, pass_advances adv u e.head w lt due'))
