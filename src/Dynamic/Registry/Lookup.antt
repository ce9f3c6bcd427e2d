-- ===== src/Dynamic/Registry/Lookup.antt =====
-- What each operation on the registry of async/src/dynamic/executor.rs changes of what a lookup
-- finds.
use uefi_async.Base.{
  ℕ, ◌+◌, ◌<◌, ◌≡◌, ◌≢◌, ◌⊎◌, inl, inr, refl, List, [], ◌∷◌, Bool, true, false, Option, none, some,
  ◌==◌, if◌then◌else◌, length, All, arith, Bool-cases, subst, sym,
}
use uefi_async.Dynamic.Registry.{
  Slot, update_first, find, lookup, live, register, retire, cancel, set_freq, is_alive,
}

-- No two slots have the same id, and all ids are below the next one.
abbrev pub Distinct : List Slot → Type 0
Distinct [] = Unit
Distinct (s ∷ reg) = All (λ t. t.id ≢ s.id) reg × Distinct reg

abbrev pub Below : ℕ → List Slot → Type 0
Below next = All (λ s. s.id < next)

abbrev pub fresh_slot : ℕ → ℕ → Slot
fresh_slot id freq = record { id = id; alive = true; cancelled = false; freq_hz = freq }

lookup-absent : (id : ℕ) (reg : List Slot) → All (λ t. t.id ≢ id) reg → lookup id reg ≡ none
unfolding find
lookup-absent id [] h = refl
lookup-absent id (s ∷ reg) h = ground (arith, lookup-absent id reg h.1)

pub lookup-Below : (id : ℕ) (reg : List Slot) → Below id reg → lookup id reg ≡ none
unfolding find
lookup-Below id [] h = refl
lookup-Below id (s ∷ reg) h = ground (arith, lookup-Below id reg h.1)

-- A registration under a new id makes that id live with the given rate, and changes no other.
pub lookup-register :
    (id freq j : ℕ) (reg : List Slot)
    → Below id reg
    → lookup j (register id freq reg)
      ≡ (if j == id then some (fresh_slot id freq) else lookup j reg)
unfolding find register
lookup-register id freq j [] h = ground arith
lookup-register id freq j (s ∷ reg) h =
    ground (arith, lookup-register id freq j reg h.1, lookup-Below id reg h.1)

-- A retirement makes the id unknown, and changes no other.
pub lookup-retire :
    (id j : ℕ) (reg : List Slot)
    → Distinct reg
    → lookup j (retire id reg) ≡ (if j == id then none else lookup j reg)
unfolding find retire update_first
lookup-retire id j [] h = ground arith
lookup-retire id j (s ∷ reg) h =
    ground (arith, lookup-retire id j reg h.1, lookup-absent s.id reg h.0)

-- So does the end of a cancelled task.
pub lookup-reap :
    (id : ℕ) (reg : List Slot)
    → Distinct reg
    → lookup id (update_first (live id) (λ s. record s { alive = false }) reg) ≡ none
unfolding find update_first
lookup-reap id [] h = refl
lookup-reap id (s ∷ reg) h = ground (arith, lookup-reap id reg h.1, lookup-absent s.id reg h.0)

abbrev pub on_slot : (Slot → Slot) → Option Slot → Option Slot
on_slot f none = none
on_slot f (some s) = some (f s)

lookup-update_first :
    (f : Slot → Slot) (id j : ℕ) (reg : List Slot)
    → ((s : Slot) → (f s).id ≡ s.id)
    → ((s : Slot) → (f s).alive ≡ s.alive)
    → lookup j (update_first (live id) f reg)
      ≡ (if j == id then on_slot f (lookup j reg) else lookup j reg)
unfolding find update_first
lookup-update_first f id j [] same_id same_alive = ground arith
lookup-update_first f id j (s ∷ reg) same_id same_alive =
    ground (arith, same_id s, same_alive s, lookup-update_first f id j reg same_id same_alive)

-- `cancel` succeeds exactly for a live id; it marks that task and changes nothing else.
pub cancel_lem :
    (id j : ℕ) (reg : List Slot)
    → let (found, reg') = cancel id reg in
      (found ≡ is_alive id reg)
      × (lookup j reg' ≡ (
          if j == id
          then on_slot (λ s. record s { cancelled = true }) (lookup j reg)
          else lookup j reg))
unfolding cancel is_alive
cancel_lem id j reg = ground (
  arith,
  lookup-update_first (λ s. record s { cancelled = true }) id j reg (λ s. refl) (λ s. refl),
)

-- `set_freq` succeeds exactly for a live id; it sets that task's rate and changes nothing else.
pub set_freq_lem :
    (id freq j : ℕ) (reg : List Slot)
    → let (found, reg') = set_freq id freq reg in
      (found ≡ is_alive id reg)
      × (lookup j reg' ≡ (
          if j == id
          then on_slot (λ s. record s { freq_hz = freq }) (lookup j reg)
          else lookup j reg))
unfolding set_freq is_alive
set_freq_lem id freq j reg =
    ground (
      arith,
      lookup-update_first (λ s. record s { freq_hz = freq }) id j reg (λ s. refl) (λ s. refl),
    )

All-ne_of_Below : (id : ℕ) (reg : List Slot) → Below id reg → All (λ t. t.id ≢ id) reg
All-ne_of_Below id [] h = tt
All-ne_of_Below id (s ∷ reg) h = (λ e. omega arith, All-ne_of_Below id reg h.1)

All-register :
    (P : Slot → Type 0) (id freq : ℕ) (reg : List Slot)
    → P (fresh_slot id freq)
    → All P reg
    → All P (register id freq reg)
unfolding register
All-register P id freq [] p h = (p, tt)
All-register P id freq (s ∷ reg) p h = elim (Bool-cases s.alive) [
  | inl alive ↦ simp alive (h.0, All-register P id freq reg p h.1)
  | inr gone ↦ simp gone (p, h.1)
]

-- A registration under the next id keeps the ids distinct and below the one after it.
pub register-Distinct :
    (id freq : ℕ) (reg : List Slot) → Below id reg → Distinct reg → Distinct (register id freq reg)
unfolding register
register-Distinct id freq [] b d = (tt, tt)
register-Distinct id freq (s ∷ reg) b d = elim (Bool-cases s.alive) [
  | inl alive ↦ rw alive (
    All-register (λ t. t.id ≢ s.id) id freq reg (λ e. omega arith) d.0,
    register-Distinct id freq reg b.1 d.1,
  )
  | inr gone ↦ simp gone (All-ne_of_Below id reg b.1, d.1)
]

Below-suc : (id : ℕ) (reg : List Slot) → Below id reg → Below (id + 1) reg
Below-suc id [] h = tt
Below-suc id (s ∷ reg) h = (omega arith, Below-suc id reg h.1)

pub register-Below :
    (id freq : ℕ) (reg : List Slot) → Below id reg → Below (id + 1) (register id freq reg)
register-Below id freq reg b =
    All-register (λ s. s.id < id + 1) id freq reg (omega arith) (Below-suc id reg b)

-- The registry grows only if every slot is alive.
pub length-register :
    (id freq : ℕ) (reg : List Slot)
    → (length (register id freq reg) ≡ length reg)
      ⊎ (All (λ s. s.alive ≡ true) reg × (length (register id freq reg) ≡ length reg + 1))
unfolding register
length-register id freq [] = inr (tt, refl)
length-register id freq (s ∷ reg) = ground (arith, length-register id freq reg)

-- Changes of a slot that keep its id keep the ids distinct and below the next one.
All-update_first :
    (P : Slot → Type 0) (test : Slot → Bool) (f : Slot → Slot) (reg : List Slot)
    → ((s : Slot) → P s → P (f s))
    → All P reg
    → All P (update_first test f reg)
unfolding update_first
All-update_first P test f [] keep h = tt
All-update_first P test f (s ∷ reg) keep h = elim (Bool-cases (test s)) [
  | inl hit ↦ rw hit (keep s h.0, h.1)
  | inr miss ↦ rw miss (h.0, All-update_first P test f reg keep h.1)
]

pub update_first-Distinct :
    (test : Slot → Bool) (f : Slot → Slot) (reg : List Slot)
    → ((s : Slot) → (f s).id ≡ s.id)
    → Distinct reg
    → Distinct (update_first test f reg)
unfolding update_first
update_first-Distinct test f [] same d = tt
update_first-Distinct test f (s ∷ reg) same d = elim (Bool-cases (test s)) [
  | inl hit ↦ rw (hit, same s) d
  | inr miss ↦ rw miss (
    All-update_first (λ t. t.id ≢ s.id) test f reg (λ t ne. rw (same t) ne) d.0,
    update_first-Distinct test f reg same d.1,
  )
]

pub update_first-Below :
    (next : ℕ) (test : Slot → Bool) (f : Slot → Slot) (reg : List Slot)
    → ((s : Slot) → (f s).id ≡ s.id)
    → Below next reg
    → Below next (update_first test f reg)
update_first-Below next test f reg same b =
    All-update_first (λ t. t.id < next) test f reg (λ t lt. rw (same t) lt) b

cancel_registry :
    (id : ℕ) (reg : List Slot)
    → ((cancel id reg).1 ≡ reg)
      ⊎ ((cancel id reg).1 ≡ update_first (live id) (λ s. record s { cancelled = true }) reg)
unfolding cancel
cancel_registry id reg = ground arith

pub cancel-Distinct : (id : ℕ) (reg : List Slot) → Distinct reg → Distinct (cancel id reg).1
cancel-Distinct id reg d = elim (cancel_registry id reg) [
  | inl e ↦ subst Distinct (sym e) d
  | inr e ↦
      subst Distinct (sym e)
        (update_first-Distinct (live id) (λ s. record s { cancelled = true }) reg (λ s. refl) d)
]
