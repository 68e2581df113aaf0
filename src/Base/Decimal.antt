-- ===== src/Base/Decimal.antt =====
-- Decimal numbers: their digits, and the value of a text of digits.
use Prim.Native.Nat.{zero, suc, ◌/◌, ◌%◌, ◌*◌, ◌-◌, ◌^◌, ◌≤◌, ◌<◌, ℕ, ◌+◌}
use mathlib.Core.Path.{◌≡◌, ap, ◌∙◌}
use mathlib.Core.Logic.{inl, inr}
use mathlib.Core.Bool.{Bool, true, false, ◌&&◌}
use mathlib.Core.List.{[], ◌∷◌}
use native.Mathlib.Omega.{arith}
use native.Mathlib.Decide.{dec_lt}
use native.Mathlib.Numerals.{unary_clauses}
use ntu_computer_network.Base.Tests.{ltb, leb, Bool-cases}
use ntu_computer_network.Base.Lists.{Bytes, All, length}
use ntu_computer_network.Base.Text.{digits, decimal}

abbrev pub IsDigit : ℕ → Type 0
IsDigit c = (b'0' ≤ c) × (c ≤ b'9')

digits-IsDigit : (fuel n : ℕ) (rest : Bytes) → All IsDigit rest → All IsDigit (digits fuel n rest)
unfolding digits
digits-IsDigit zero n rest a = a
digits-IsDigit (suc fuel) n rest a = elim (Bool-cases (ltb n 10)) [
  | inl e ↦ rw (e, All) ((omega arith, ground (arith, e)), a)
  | inr e ↦
      rw (e, All)
        (digits-IsDigit fuel (n / 10) ((b'0' + n % 10) ∷ rest)
          ((omega arith, ground (arith, e)), a))
]

pub decimal-IsDigit : (n : ℕ) → All IsDigit (decimal n)
unfolding decimal
decimal-IsDigit n = digits-IsDigit 20 n [] tt

-- `isdigit`
abbrev pub is_digit : ℕ → Bool
is_digit c = leb b'0' c && leb c b'9'

-- The value of the digits that a text starts with, behind those of `acc`.
unfoldable pub digits_value : ℕ → Bytes → ℕ
digits_value acc [] = acc
digits_value acc (c ∷ cs) = elim (is_digit c) [
  | true ↦ digits_value (acc * 10 + (c - b'0')) cs
  | false ↦ acc
]

digits_value-digit :
    (acc c : ℕ) (cs : Bytes)
    → IsDigit c
    → digits_value acc (c ∷ cs) ≡ digits_value (acc * 10 + (c - b'0')) cs
unfolding digits_value
digits_value-digit acc c cs d =
    let digit : is_digit c ≡ true = ground (arith, d.0, d.1) in rw (digit, digits_value)

digits_last : (fuel n : ℕ) (rest : Bytes) → n < 10 → digits (suc fuel) n rest ≡ (b'0' + n) ∷ rest
unfolding digits
digits_last fuel n rest h = ground arith

digits_more :
    (fuel n : ℕ) (rest : Bytes)
    → 10 ≤ n
    → digits (suc fuel) n rest ≡ digits fuel (n / 10) ((b'0' + n % 10) ∷ rest)
unfolding digits
digits_more fuel n rest h = ground arith

length-digits : (fuel n : ℕ) (rest : Bytes) → length rest ≤ length (digits fuel n rest)
unfolding digits
length-digits zero n rest = omega arith
length-digits (suc fuel) n rest =
    ground (arith, length-digits fuel (n / 10) ((b'0' + n % 10) ∷ rest))

length-digits-suc :
    (fuel n : ℕ) (rest : Bytes) → length rest + 1 ≤ length (digits (suc fuel) n rest)
length-digits-suc fuel n rest = elim (dec_lt n 10) [
  | yes small ↦ rw (digits_last fuel n rest small) (omega arith)
  | no large ↦
      rw (digits_more fuel n rest (omega arith))
        (omega (arith, length-digits fuel (n / 10) ((b'0' + n % 10) ∷ rest)))
]

-- How many digits a number has: one, two, or three at least.
pub length-decimal_one : (n : ℕ) → n < 10 → length (decimal n) ≡ 1
unfolding decimal
length-decimal_one n h = ap length (digits_last 19 n [] h)

pub length-decimal_two : (n : ℕ) → 10 ≤ n → n < 100 → length (decimal n) ≡ 2
unfolding decimal
length-decimal_two n h k =
    ap length (digits_more 19 n [] h ∙ digits_last 18 (n / 10) ((b'0' + n % 10) ∷ []) (omega arith))

pub length-decimal_more : (n : ℕ) → 100 ≤ n → 3 ≤ length (decimal n)
unfolding decimal
length-decimal_more n h =
    rw
      (
        digits_more 19 n [] (omega arith),
        digits_more 18 (n / 10) ((b'0' + n % 10) ∷ []) (omega arith),
      )
      (length-digits-suc 17 (n / 10 / 10) ((b'0' + n / 10 % 10) ∷ (b'0' + n % 10) ∷ []))

digits_value-digits :
    (fuel n : ℕ) (rest : Bytes)
    → n < 10 ^ fuel
    → digits_value 0 (digits fuel n rest) ≡ digits_value n rest
unfolding digits
digits_value-digits zero n rest h = ap (λ k. digits_value k rest) (omega arith)
digits_value-digits (suc fuel) n rest h = elim (dec_lt n 10) [
  | yes small ↦
      ap (digits_value 0) (digits_last fuel n rest small)
      ∙ digits_value-digit 0 (b'0' + n) rest (omega arith, omega arith)
      ∙ ap (λ k. digits_value k rest) (omega arith)
  | no large ↦
      ap (digits_value 0) (digits_more fuel n rest (omega arith))
      ∙ digits_value-digits fuel (n / 10) ((b'0' + n % 10) ∷ rest) (
          let power : 10 ^ suc fuel ≡ 10 * 10 ^ fuel = simp unary_clauses (omega arith) in
          omega arith)
      ∙ digits_value-digit (n / 10) (b'0' + n % 10) rest (omega arith, omega arith)
      ∙ ap (λ k. digits_value k rest) (omega arith)
]

pub digits_value-decimal : (n : ℕ) → n < 10 ^ 20 → digits_value 0 (decimal n) ≡ n
unfolding decimal digits_value
digits_value-decimal n h = digits_value-digits 20 n [] h
