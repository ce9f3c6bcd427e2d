-- ===== src/Static/Lifo/Window.antt =====
-- The items of a circular buffer as a list, oldest first (async/src/no_alloc/lifo.rs: `read_at`,
-- `write_at` and positions that wrap at 2^32).
use Prim.Native.Nat.{bit_and, ◌∣◌}
use native.Mathlib.Nat.{
  mod-add-mod, mod-eq_of_lt, mod-eq-sub-mod, mod-mod_of_dvd, mod-lt, pow-suc, dvd-mul_right_of_dvd,
  dvd_refl, suc-mod, le_of_dvd,
}
use native.Mathlib.Decide.{dec_lt}
use uefi_async.Base.{
  ℕ, zero, suc, ◌+◌, ◌-◌, ◌%◌, ◌^◌, ◌≤◌, ◌<◌, ◌≡◌, ◌≢◌, refl, sym, ap, ap₂, ◌∙◌, List, [], ◌∷◌,
  ◌++◌, arith, length, get_or, set, get_or-set_self, get_or-set_ne,
}
use uefi_async.Base.Bits.{bit_and-mask}

-- Fewer than `cap` positions further on lies another index.
add-mod-ne : (cap p d : ℕ) → 0 < d → d < cap → (p + d) % cap ≢ p % cap
add-mod-ne cap p d pos lt = elim (dec_lt (p % cap + d) cap) [
  | yes below ↦ omega (arith, mod-add-mod p cap d, mod-eq_of_lt below)
  | no above ↦ omega (
    arith,
    mod-add-mod p cap d,
    mod-lt p {m = cap} (omega arith),
    mod-eq-sub-mod {n = p % cap + d} {m = cap} (omega arith),
    mod-eq_of_lt {n = p % cap + d - cap} {m = cap}
        (omega (arith, mod-lt p {m = cap} (omega arith))),
  )
]

module _ (cap : ℕ) where
  abbrev pub at : List ℕ → ℕ → ℕ
  at buf p = get_or buf (p % cap) 0

  -- The `n` items from position `p` on.
  abbrev pub window : List ℕ → ℕ → ℕ → List ℕ
  window buf p zero = []
  window buf p (suc n) = at buf p ∷ window buf (suc p) n

  pub length-window : (buf : List ℕ) (p n : ℕ) → length (window buf p n) ≡ n
  length-window buf p zero = refl
  length-window buf p (suc n) = ap suc (length-window buf (suc p) n)

  -- Positions count modulo `cap` only.
  pub window_mod : (buf : List ℕ) (p q n : ℕ) → p % cap ≡ q % cap → window buf p n ≡ window buf q n
  window_mod buf p q zero e = refl
  window_mod buf p q (suc n) e = ap₂ ◌∷◌ (ap (λ i. get_or buf i 0) e) (
      window_mod buf (suc p) (suc q) n
        (suc-mod p cap ∙ ap (λ (t : ℕ). suc t % cap) e ∙ sym (suc-mod q cap)))

  pub window-append :
      (buf : List ℕ) (p a b : ℕ) → window buf p (a + b) ≡ window buf p a ++ window buf (p + a) b
  window-append buf p zero b = ap₂ (λ m n. window buf m n) (omega arith) (omega arith)
  window-append buf p (suc a) b =
      ap (window buf p) {x = suc a + b} {y = suc (a + b)} (omega arith)
      ∙ ap (λ ys. at buf p ∷ ys)
          (window-append buf (suc p) a b
            ∙ ap (λ m. window buf (suc p) a ++ window buf m b) {x = suc p + a} {y = p + suc a}
                (omega arith))

  -- A write outside a window leaves it.
  pub window_write :
      (buf : List ℕ) (x p d n i : ℕ)
      → i ≡ (p + d) % cap
      → n ≤ d
      → d < cap
      → window (set buf i x) p n ≡ window buf p n
  window_write buf x p d zero i e le lt = refl
  window_write buf x p zero (suc n) i e le lt = absurd (omega arith)
  window_write buf x p (suc d) (suc n) i e le lt =
      ap₂ ◌∷◌ (get_or-set_ne buf x 0 (rw e (add-mod-ne cap p (suc d) (omega arith) lt))) (
        window_write buf x (suc p) d n i (e ∙ ap (λ t. t % cap) (omega arith)) (omega arith)
          (omega arith))

  -- A write just behind a window extends it.
  pub window_push :
      (buf : List ℕ) (x p n i : ℕ)
      → cap ≤ length buf
      → i ≡ (p + n) % cap
      → n < cap
      → window (set buf i x) p (n + 1) ≡ window buf p n ++ x ∷ []
  window_push buf x p n i long e lt =
      window-append (set buf i x) p n 1
      ∙ ap₂ ◌++◌ (window_write buf x p n n i e (omega arith) lt)
          (ap (λ y. y ∷ []) (rw (← e) (get_or-set_self buf i x 0 inside)))
    where
      inside : i < length buf
      inside = omega (arith, mod-lt (p + n) {m = cap} (omega arith))

pow-pos : (k : ℕ) → 0 < 2 ^ k
pow-pos zero = omega arith
pow-pos (suc k) = omega (arith, pow-suc 2 k, pow-pos k)

pow-dvd : (m k : ℕ) → k ≤ m → 2 ^ k ∣ 2 ^ m
pow-dvd zero zero h = dvd_refl (2 ^ 0)
pow-dvd zero (suc k) h = absurd (omega arith)
pow-dvd (suc m) k h = elim (dec_lt m k) [
  | yes last ↦ let e : k ≡ suc m = omega arith in rw e (dvd_refl (2 ^ suc m))
  | no below ↦ rw (pow-suc 2 m) (dvd-mul_right_of_dvd (2 ^ k) (pow-dvd m k (omega arith)) 2)
]

module _ (k : ℕ) (small : k < 32) where
  pub cap_small : 2 ^ k ≤ 2 ^ 31
  cap_small = le_of_dvd (pow-pos 31) (pow-dvd 31 k (omega arith))

  pub cap_pos : 0 < 2 ^ k
  cap_pos = pow-pos k

  pub wrap_mod : (p : ℕ) → p % 2 ^ 32 % 2 ^ k ≡ p % 2 ^ k
  wrap_mod p = mod-mod_of_dvd (2 ^ k) p (pow-dvd 32 k (omega arith))

  -- A position that has wrapped at 2^32 has the same index.
  pub index_wrap : (p : ℕ) → bit_and (p % 2 ^ 32) (2 ^ k - 1) ≡ p % 2 ^ k
  index_wrap p = bit_and-mask k (p % 2 ^ 32) ∙ wrap_mod p
