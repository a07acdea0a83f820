-- ===== src/Text/Decimal.antt =====
-- Printing a number in decimal and reading it back.
use native.Mathlib.Nat.{pow-suc}
use mathlib.Core.List.{append-nil, append_assoc, foldl}
use iotop_cpp.Base.{
  ℕ, zero, suc, ◌+◌, ◌-◌, ◌*◌, ◌/◌, ◌%◌, ◌≤◌, ◌<◌, ◌^◌, ◌≡◌, refl, ◌∙◌, true, inl, inr, [], ◌∷◌,
  ◌++◌, arith, ltb, All, Bool-cases, length, length-append,
}
use iotop_cpp.Text.{Text, is_digit, decimal_fuel, decimal, digits_value, strtoul, ulong_max}

digits_value-digit :
    (acc d : ℕ) (rest : Text)
    → d < 10
    → digits_value acc ((b'0' + d) ∷ rest) ≡ digits_value (acc * 10 + d) rest
unfolding digits_value
digits_value-digit acc d rest h = let e : b'0' + d - b'0' ≡ d = omega arith in rw e (ground arith)

digits_value-decimal_fuel :
    (f n : ℕ) (rest : Text)
    → n < f
    → digits_value 0 (decimal_fuel f n ++ rest) ≡ digits_value n rest
unfolding decimal_fuel
digits_value-decimal_fuel zero n rest h = absurd (omega arith)
digits_value-decimal_fuel (suc f) n rest h = elim (Bool-cases (ltb n 10)) [
  | inl small ↦
      let z : 0 * 10 + n ≡ n = omega arith in
      rw small (digits_value-digit 0 n rest (ground arith) ∙ rw z)
  | inr large ↦
      let e : n / 10 * 10 + n % 10 ≡ n = omega arith in
      rw (large, append_assoc)
        (digits_value-decimal_fuel f (n / 10) ((b'0' + n % 10) ∷ rest) (ground arith)
          ∙ digits_value-digit (n / 10) (n % 10) rest (omega arith)
          ∙ rw e)
]

-- The digits of n, whatever follows them, are read as n.
pub digits_value-decimal :
    (n : ℕ) (rest : Text) → digits_value 0 (decimal n ++ rest) ≡ digits_value n rest
unfolding decimal
digits_value-decimal n rest = digits_value-decimal_fuel (suc n) n rest (omega arith)

-- All bytes are digits.
abbrev pub IsNumeral : Text → Type 0
IsNumeral = All (λ c. is_digit c ≡ true)

-- The number that digits stand for, with `acc` in front of them.
abbrev pub value_onto : ℕ → Text → ℕ
value_onto = foldl (λ acc c. acc * 10 + (c - b'0'))

pub digits_value-IsNumeral :
    (acc : ℕ) (s : Text) → IsNumeral s → digits_value acc s ≡ (value_onto acc s, [])
unfolding digits_value
digits_value-IsNumeral acc [] h = refl
digits_value-IsNumeral acc (c ∷ s) h = rw h.0 (digits_value-IsNumeral (acc * 10 + (c - b'0')) s h.1)

-- A text that is used up consists of digits.
pub rest-IsNumeral : (acc : ℕ) (s : Text) → (digits_value acc s).1 ≡ [] → IsNumeral s
unfolding digits_value
rest-IsNumeral acc [] h = tt
rest-IsNumeral acc (c ∷ s) h = elim (Bool-cases (is_digit c)) [
  | inl d ↦ (d, rest-IsNumeral (acc * 10 + (c - b'0')) s (ground (arith, d)))
  | inr d ↦ absurd (ground (arith, d))
]

IsNumeral-append : (s t : Text) → IsNumeral s → IsNumeral t → IsNumeral (s ++ t)
IsNumeral-append [] t h k = k
IsNumeral-append (c ∷ s) t h k = (h.0, IsNumeral-append s t h.1 k)

is_digit_below : (d : ℕ) → d < 10 → is_digit (b'0' + d) ≡ true
is_digit_below d h = ground arith

decimal_fuel-IsNumeral : (f n : ℕ) → IsNumeral (decimal_fuel f n)
unfolding decimal_fuel
decimal_fuel-IsNumeral zero n = tt
decimal_fuel-IsNumeral (suc f) n = elim (Bool-cases (ltb n 10)) [
  | inl small ↦ rw small (is_digit_below n (ground arith), tt)
  | inr large ↦ rw large (
      IsNumeral-append _ _ (decimal_fuel-IsNumeral f (n / 10))
        (is_digit_below (n % 10) (omega arith), tt))
]

pub decimal-IsNumeral : (n : ℕ) → IsNumeral (decimal n)
unfolding decimal
decimal-IsNumeral n = decimal_fuel-IsNumeral (suc n) n

length-decimal_fuel : (f n : ℕ) → 0 < length (decimal_fuel (suc f) n)
unfolding decimal_fuel
length-decimal_fuel f n = elim (Bool-cases (ltb n 10)) [
  | inl small ↦ rw small (omega arith)
  | inr large ↦ rw large (omega (arith, length-append (decimal_fuel f (n / 10)) (_ ∷ [])))
]

uncons :
    (t : Text)
    → 0 < length t
    → IsNumeral t
    → (c : ℕ) × (s : Text) × (t ≡ c ∷ s) × (is_digit c ≡ true)
uncons [] p h = absurd (omega arith)
uncons (c ∷ s) p h = (c, s, refl, h.0)

-- A number has at least one digit.
pub decimal-cons : (n : ℕ) → (c : ℕ) × (s : Text) × (decimal n ≡ c ∷ s) × (is_digit c ≡ true)
unfolding decimal
decimal-cons n = uncons (decimal n) (length-decimal_fuel n n) (decimal-IsNumeral n)

pub digits_value-decimal_nil : (n : ℕ) → digits_value 0 (decimal n) ≡ (n, [])
unfolding digits_value
digits_value-decimal_nil n = rw append-nil at (digits_value-decimal n [])

-- `strtoul` reads a printed 64-bit number back, and nothing is left.
pub strtoul-decimal : (n : ℕ) → n ≤ ulong_max → strtoul (decimal n) ≡ (n, [])
unfolding strtoul
strtoul-decimal n h = let d = digits_value-decimal_nil n in rw d (ground arith)

-- A number below 10 ^ k has at most k digits.
length-decimal_fuel-le : (f n k : ℕ) → n < 10 ^ suc k → length (decimal_fuel f n) ≤ suc k
unfolding decimal_fuel
length-decimal_fuel-le zero n k h = omega arith
length-decimal_fuel-le (suc f) n zero h = elim (Bool-cases (ltb n 10)) [
  | inl small ↦ rw small (omega arith)
  | inr large ↦ absurd (ground (arith, large, h))
]
length-decimal_fuel-le (suc f) n (suc k) h = elim (Bool-cases (ltb n 10)) [
  | inl small ↦ rw small (omega arith)
  | inr large ↦ rw large (
      omega (
        arith,
        length-append (decimal_fuel f (n / 10)) ((48 + n % 10) ∷ []),
        length-decimal_fuel-le f (n / 10) k (omega (arith, pow-suc 10 (suc k))),
      ))
]

pub length-decimal-le : (n k : ℕ) → n < 10 ^ suc k → length (decimal n) ≤ suc k
unfolding decimal
length-decimal-le n k h = length-decimal_fuel-le (suc n) n k h
