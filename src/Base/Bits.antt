-- ===== src/Base/Bits.antt =====
-- `|` of two fields that do not overlap is their sum.
use Prim.Native.Nat.{
  ℕ, zero, suc, ◌+◌, ◌*◌, ◌/◌, ◌^◌, ◌≤◌, ◌<◌, max, bit_or, digits, bit_or-bitwise,
}
use mathlib.Core.Path.{◌≡◌, refl, ap}
use native.Mathlib.Nat.{pow-suc}
use native.Mathlib.Omega.{arith}

abbrev or_digits : ℕ → ℕ → ℕ → ℕ
or_digits n a b = digits (λ d. d) max n a b

shifted_half : (q k : ℕ) → q * 2 ^ suc k ≡ 2 * (q * 2 ^ k)
shifted_half q k = omega (arith, ap (λ (t : ℕ). q * t) (pow-suc 2 k))

or_digits-zero : (n a : ℕ) → a ≤ n → or_digits n a 0 ≡ a
or_digits-zero zero a h = omega arith
or_digits-zero (suc n) zero h = refl
or_digits-zero (suc n) (suc a) h = ground (arith, or_digits-zero n (suc a / 2) (omega arith))

or_digits_fields : (n a b k q : ℕ) → a ≤ n → a ≡ q * 2 ^ k → b < 2 ^ k → or_digits n a b ≡ a + b
or_digits_fields n a b zero q h e lt =
    let z : b ≡ 0 = omega arith in rw z (omega (arith, or_digits-zero n a h))
or_digits_fields zero a b (suc k) q h e lt = omega arith
or_digits_fields (suc n) zero b (suc k) q h e lt = omega arith
or_digits_fields (suc n) (suc a) b (suc k) q h e lt = ground (
  arith,
  shifted_half q k,
  pow-suc 2 k,
  or_digits_fields n (suc a / 2) (b / 2) k q (omega arith) (omega (arith, shifted_half q k))
      (omega (arith, pow-suc 2 k)),
)

pub bit_or_fields : (k q b : ℕ) → b < 2 ^ k → bit_or (q * 2 ^ k) b ≡ q * 2 ^ k + b
bit_or_fields k q b h =
    rw bit_or-bitwise (or_digits_fields (q * 2 ^ k) (q * 2 ^ k) b k q (omega arith) refl h)
