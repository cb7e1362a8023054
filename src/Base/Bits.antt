-- ===== src/Base/Bits.antt =====
-- A mask of k ones takes the remainder by 2 ^ k.
use Prim.Native.Nat.{
  ℕ, zero, suc, ◌+◌, ◌-◌, ◌*◌, ◌/◌, ◌%◌, ◌^◌, ◌≤◌, ◌<◌, min, digits, bit_and, bit_and-bitwise,
}
use mathlib.Core.Path.{◌≡◌, ap, ◌∙◌}
use native.Mathlib.Omega.{arith}
use native.Mathlib.Nat.{
  pow-suc, mod-eq_of_lt, mul-add-mod_self_left, mod-lt, div-add-mod, zero-mod, mul_comm,
}

pub pow_pos : (k : ℕ) → 0 < 2 ^ k
pow_pos zero = omega arith
pow_pos (suc k) = omega (arith, pow-suc 2 k, pow_pos k)

-- The remainder by an even number, from that of the half.
mod_double : (h m : ℕ) → 0 < m → h % (2 * m) ≡ h / 2 % m * 2 + h % 2
mod_double h m p =
    let q = h / 2 / m in
    let r = h / 2 % m * 2 + h % 2 in
    let split : h ≡ 2 * m * q + r = omega (arith, div-add-mod (h / 2) m) in
    let small : r < 2 * m = omega (arith, mod-lt (h / 2) p) in
    ap (λ t. t % (2 * m)) split ∙ mul-add-mod_self_left (2 * m) q r ∙ mod-eq_of_lt small

mask_digits : (n a k : ℕ) → a ≤ n → digits (λ b. zero) min n a (2 ^ k - 1) ≡ a % 2 ^ k
mask_digits zero zero k h = omega (arith, zero-mod (2 ^ k))
mask_digits zero (suc a) k h = absurd (omega arith)
mask_digits (suc n) zero k h = omega (arith, zero-mod (2 ^ k))
mask_digits (suc n) (suc a) zero h = omega (arith, mask_digits n (suc a / 2) zero (omega arith))
mask_digits (suc n) (suc a) (suc k) h =
    let half : (2 ^ suc k - 1) / 2 ≡ 2 ^ k - 1 = omega (arith, pow-suc 2 k, pow_pos k) in
    let odd : (2 ^ suc k - 1) % 2 ≡ 1 = omega (arith, pow-suc 2 k, pow_pos k) in
    rw (half, odd)
      (omega (
        arith,
        mask_digits n (suc a / 2) k (omega arith),
        mod_double (suc a) (2 ^ k) (pow_pos k),
        ap (λ t. suc a % t) (pow-suc 2 k),
        ap (λ t. suc a % t) (mul_comm 2 (2 ^ k)),
      ))

pub bit_and_mask : (a k : ℕ) → bit_and a (2 ^ k - 1) ≡ a % 2 ^ k
bit_and_mask a k = bit_and-bitwise a (2 ^ k - 1) ∙ mask_digits a a k (omega arith)
