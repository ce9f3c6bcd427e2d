-- ===== src/Static/Task/Pool.antt =====
-- Which slots the pool of async/src/no_alloc/task.rs gives out.
use uefi_async.Base.{
  ℕ, suc, ◌+◌, ◌≡◌, ◌≢◌, refl, ap, ◌∙◌, none, some, List, [], ◌∷◌, ◌++◌, arith, length, replicate,
  All,
}
use uefi_async.Static.Task.{initialized, into, TaskSlot, new_slot, init}

-- A slot given out for a future: `here` is its address.
abbrev pub taken : {F : Type 0} → ℕ → F → TaskSlot F
taken here future = record {
  header = record { control = 0; state = into initialized };
  address = here;
  future = some future;
}

module _ (F : Type 0) where
  init_pass :
      (i : ℕ) (s : TaskSlot F) (slots : List (TaskSlot F)) (future : F) (j : ℕ)
      (slots' : List (TaskSlot F))
      → s.header.state ≢ 0
      → init (suc i) slots future ≡ some (j, slots')
      → init i (s ∷ slots) future ≡ some (j, s ∷ slots')
  unfolding init
  init_pass i s slots future j slots' h e = ground arith

  -- A search passes the slots that are not free.
  init-append :
      (i : ℕ) (used slots : List (TaskSlot F)) (future : F) (j : ℕ) (slots' : List (TaskSlot F))
      → All (λ s. s.header.state ≢ 0) used
      → init (length used + i) slots future ≡ some (j, slots')
      → init i (used ++ slots) future ≡ some (j, used ++ slots')
  init-append i [] slots future j slots' hs e =
      ap (λ m. init m slots future) {x = i} {y = 0 + i} (omega arith) ∙ e
  init-append i (s ∷ used) slots future j slots' hs e =
      init_pass i s (used ++ slots) future j (used ++ slots') hs.0 (
        init-append (suc i) used slots future j slots' hs.1 (
          ap (λ m. init m slots future) {x = length used + suc i} {y = suc (length used) + i}
            (omega arith)
          ∙ e))

  init-full :
      (i : ℕ) (used : List (TaskSlot F)) (future : F)
      → All (λ s. s.header.state ≢ 0) used
      → init i used future ≡ none
  unfolding init
  init-full i [] future hs = refl
  init-full i (s ∷ used) future hs = ground (arith, init-full (suc i) used future hs.1)

  init-fresh :
      (i : ℕ) (slots : List (TaskSlot F)) (future : F)
      → init i (new_slot ∷ slots) future ≡ some (i, taken (suc i) future ∷ slots)
  unfolding init
  init-fresh i slots future = refl

  -- A future is never put in a slot that was used before, whatever has become of this slot: with the
  -- used slots in any states but free, and `n` free slots behind them, the future is put in the first
  -- of the free ones, if there is one, and is refused with a panic if there is none. The used slots
  -- stay as they are.
  pub init_next :
      (used : List (TaskSlot F)) (n : ℕ) (future : F)
      → All (λ s. s.header.state ≢ 0) used
      → (init 0 (used ++ replicate (suc n) new_slot) future
          ≡ some (length used, used ++ taken (suc (length used)) future ∷ replicate n new_slot))
        × (init 0 used future ≡ none)
  init_next used n future busy = (
    init-append 0 used (replicate (suc n) new_slot) future (length used)
        (taken (suc (length used)) future ∷ replicate n new_slot) busy
        (ap (λ m. init m (replicate (suc n) new_slot) future) {x = length used + 0}
            {y = length used} (omega arith)
          ∙ init-fresh (length used) (replicate n new_slot) future),
    init-full 0 used future busy,
  )
