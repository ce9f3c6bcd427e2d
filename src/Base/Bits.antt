-- ===== src/Base/Bits.antt =====
-- `position & MASK` with a mask of k ones, and the remainder by 2^k.
use Prim.Native.Nat.{
  ℕ, zero, suc, ◌+◌, ◌-◌, ◌*◌, ◌/◌, ◌%◌, ◌^◌, ◌≤◌, ◌<◌, min, bit_and, digits, bit_and-bitwise,
}
use mathlib.Core.Path.{◌≡◌, refl, sym, ap, ◌∙◌}
use native.Mathlib.Omega.{arith}
use native.Mathlib.Nat.{pow-suc, mod-lt, mod-eq_of_lt, mod-add-div, add-mul-mod_self_left, zero-mod}

-- One binary digit in front of a remainder.
mod-double : (x m : ℕ) → 0 < m → x / 2 % m * 2 + x % 2 ≡ x % (2 * m)
mod-double x m pos =
    let r = x / 2 % m * 2 + x % 2 in
    let small : r < 2 * m = omega (arith, mod-lt (x / 2) pos) in
    let whole : r + 2 * m * (x / 2 / m) ≡ x =
      omega (arith, ap (λ (t : ℕ). 2 * t) (mod-add-div (x / 2) m)) in
    sym (mod-eq_of_lt small)
    ∙ sym (add-mul-mod_self_left r (2 * m) (x / 2 / m))
    ∙ ap (λ t. t % (2 * m)) whole

pow-pos : (k : ℕ) → 0 < 2 ^ k
pow-pos zero = omega arith
pow-pos (suc k) = omega (arith, pow-suc 2 k, pow-pos k)

mask_digits : (n k m a : ℕ) → m ≡ 2 ^ k → a ≤ n → digits (λ b. zero) min n a (m - 1) ≡ a % m
mask_digits zero k m zero e h = sym (zero-mod m)
mask_digits zero k m (suc a) e h = absurd (omega arith)
mask_digits (suc n) k m zero e h = sym (zero-mod m)
mask_digits (suc n) zero m (suc a) e h =
    let e' : m ≡ 1 = e in rw e' (omega (arith, mask_digits n zero 1 (suc a / 2) refl (omega arith)))
mask_digits (suc n) (suc k) m (suc a) e h =
    let half : ℕ = 2 ^ k in
    let e' : m ≡ 2 * half = e ∙ pow-suc 2 k ∙ omega arith in
    let pos : 0 < half = pow-pos k in
    let low : (m - 1) / 2 ≡ half - 1 = omega arith in
    let ih = mask_digits n k half (suc a / 2) refl (omega arith) in
    rw low (omega (arith, ih, mod-double (suc a) half pos, ap (λ (t : ℕ). suc a % t) e'))

pub bit_and-mask : (k a : ℕ) → bit_and a (2 ^ k - 1) ≡ a % 2 ^ k
bit_and-mask k a = bit_and-bitwise a (2 ^ k - 1) ∙ mask_digits a k (2 ^ k) a refl (omega arith)
