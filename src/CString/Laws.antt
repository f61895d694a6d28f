-- ===== src/CString/Laws.antt =====
-- The conversions on a string of decimal digits, and `strcmp`.
use ghetto_subscriber_valida.Prelude.{
  ℕ, suc, zero, ◌+◌, ◌-◌, ◌*◌, ◌^◌, ◌≤◌, ◌<◌, ◌≡◌, ◌↔◌, refl, List, [], ◌∷◌, true, false, All,
  arith, length,
}
use native.Mathlib.Nat.{pow-suc, mul-le-mul_right, pow-le-pow_right, one-mul, lt_of_lt_of_le}
use ghetto_subscriber_valida.CString.{scan_digits, scan_number, strtol, strtoul, until_nul, str_eq}

abbrev pub IsDigit : ℕ → Type 0
IsDigit c = (b'0' ≤ c) × (c ≤ b'9')

-- The number that a string of digits denotes, the first digit the most significant, with what
-- stands before it.
abbrev pub decimal : ℕ → List ℕ → ℕ
decimal acc [] = acc
decimal acc (c ∷ cs) = decimal (10 * acc + (c - b'0')) cs

scan_digits-decimal :
    (acc : ℕ) (s : List ℕ) → All IsDigit s → scan_digits acc s ≡ (decimal acc s, [])
unfolding scan_digits
scan_digits-decimal acc [] h = refl
scan_digits-decimal acc (c ∷ cs) h =
    ground (arith, scan_digits-decimal (10 * acc + (c - b'0')) cs h.1)

scan_number-decimal :
    (c : ℕ) (s : List ℕ)
    → All IsDigit (c ∷ s)
    → scan_number (c ∷ s) ≡ record { negative = false; magnitude = decimal 0 (c ∷ s); rest = [] }
unfolding scan_number
scan_number-decimal c s h = ground (arith, scan_digits-decimal (10 * 0 + (c - b'0')) s h.1)

pub decimal-lt :
    (acc : ℕ) (s : List ℕ) (k : ℕ)
    → All IsDigit s
    → length s ≡ k
    → decimal acc s < (acc + 1) * 10 ^ k
decimal-lt acc [] zero h e = omega arith
decimal-lt acc [] (suc k) h e = absurd (omega arith)
decimal-lt acc (c ∷ cs) zero h e = absurd (omega arith)
decimal-lt acc (c ∷ cs) (suc k) h e =
    let more : 10 * acc + (c - b'0') + 1 ≤ (acc + 1) * 10 = omega (arith, h.0) in
    rw (pow-suc 10 k) (
      omega (
        arith,
        decimal-lt (10 * acc + (c - b'0')) cs k h.1 (omega arith),
        mul-le-mul_right (10 ^ k) more,
      ))

-- `strtol` and `strtoul` give the number that 1 to 18 digits denote, and read all of them.
module _ (c : ℕ) (s : List ℕ) (digits : All IsDigit (c ∷ s)) (short : length (c ∷ s) ≤ 18) where
  decimal_small : decimal 0 (c ∷ s) < 10 ^ 18
  decimal_small =
      lt_of_lt_of_le (decimal-lt 0 (c ∷ s) (length (c ∷ s)) digits refl)
        (rw one-mul (pow-le-pow_right (omega arith) short))

  pub strtol-decimal : strtol (c ∷ s) ≡ decimal 0 (c ∷ s)
  unfolding strtol
  strtol-decimal = rw (scan_number-decimal c s digits) (omega (arith, decimal_small))

  pub strtoul-decimal : strtoul (c ∷ s) ≡ (decimal 0 (c ∷ s), [])
  unfolding strtoul
  strtoul-decimal = rw (scan_number-decimal c s digits) (ground (arith, decimal_small))

pub until_nul-digits : (s : List ℕ) → All IsDigit s → until_nul s ≡ s
unfolding until_nul
until_nul-digits [] h = refl
until_nul-digits (c ∷ cs) h = ground (arith, until_nul-digits cs h.1)

-- `strcmp` finds two strings equal exactly when they are.
pub str_eq_iff : (s t : List ℕ) → (str_eq s t ≡ true) ↔ (s ≡ t)
unfolding str_eq
str_eq_iff [] [] = (λ _. refl, λ _. refl)
str_eq_iff [] (d ∷ ds) = ground arith
str_eq_iff (c ∷ cs) [] = ground arith
str_eq_iff (c ∷ cs) (d ∷ ds) = ground (arith, str_eq_iff cs ds)
