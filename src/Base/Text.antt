-- ===== src/Base/Text.antt =====
-- C strings as lists of bytes: comparison, lower case, and decimal numbers.
use Prim.Native.Nat.{zero, suc, ◌/◌, ◌%◌, ◌≤◌, ◌<◌, ℕ, ◌+◌}
use mathlib.Core.Path.{◌≡◌, refl, ap₂}
use mathlib.Core.Logic.{◌↔◌, ◌≢◌}
use mathlib.Core.Bool.{Bool, true, false, ◌&&◌, ◌||◌}
use mathlib.Core.List.{List, [], ◌∷◌, map}
use native.Mathlib.Omega.{arith}
use ntu_computer_network.Base.Tests.{ltb, leb, ◌==◌, if◌then◌else◌}
use ntu_computer_network.Base.Lists.{length, Bytes}

-- `strcmp(a, b) == 0`
unfoldable pub bytes_eq : Bytes → Bytes → Bool
bytes_eq [] [] = true
bytes_eq [] (_ ∷ _) = false
bytes_eq (_ ∷ _) [] = false
bytes_eq (a ∷ as') (b ∷ bs) = a == b && bytes_eq as' bs

pub bytes_eq_iff : (a b : Bytes) → (bytes_eq a b ≡ true) ↔ (a ≡ b)
unfolding bytes_eq
bytes_eq_iff [] [] = ((λ _. refl), (λ _. refl))
bytes_eq_iff [] (b ∷ bs) = ((λ e. cc), (λ e. cc))
bytes_eq_iff (a ∷ as') [] = ((λ e. cc), (λ e. cc))
bytes_eq_iff (a ∷ as') (b ∷ bs) = ground (arith, bytes_eq_iff as' bs)

pub bytes_eq_refl : (a : Bytes) → bytes_eq a a ≡ true
bytes_eq_refl a = (bytes_eq_iff a a).1 refl

pub ne→bytes_eq : (a b : Bytes) → a ≢ b → bytes_eq a b ≡ false
ne→bytes_eq a b h = ground (arith, bytes_eq_iff a b)

-- `tolower` in the C locale
unfoldable pub tolower : ℕ → ℕ
tolower c = if leb b'A' c && leb c b'Z' then c + 32 else c

abbrev pub lower : Bytes → Bytes
lower = map tolower

pub tolower_twice : (c : ℕ) → tolower (tolower c) ≡ tolower c
unfolding tolower
tolower_twice c = ground arith

pub lower_twice : (s : Bytes) → lower (lower s) ≡ lower s
lower_twice [] = refl
lower_twice (c ∷ s) = ap₂ ◌∷◌ (tolower_twice c) (lower_twice s)

-- `strchr(set, c) != NULL` for the delimiters of `strtok`
unfoldable pub contains : List ℕ → ℕ → Bool
contains [] c = false
contains (x ∷ xs) c = c == x || contains xs c

-- The decimal digits of a number below 10 ^ fuel, before the digits `rest`.
unfoldable pub digits : ℕ → ℕ → Bytes → Bytes
digits zero n rest = rest
digits (suc fuel) n rest = elim (ltb n 10) [
  | true ↦ (b'0' + n) ∷ rest
  | false ↦ digits fuel (n / 10) ((b'0' + n % 10) ∷ rest)
]

-- `%zu`: a `size_t` has at most 20 digits.
unfoldable pub decimal : ℕ → Bytes
unfolding digits
decimal n = digits 20 n []

length-digits : (fuel n : ℕ) (rest : Bytes) → length (digits fuel n rest) ≤ fuel + length rest
unfolding digits
length-digits zero n rest = omega arith
length-digits (suc fuel) n rest =
    ground (arith, length-digits fuel (n / 10) ((b'0' + n % 10) ∷ rest))

pub length-decimal : (n : ℕ) → length (decimal n) ≤ 20
unfolding decimal
length-decimal n = omega (arith, length-digits 20 n [])

length-digits_pos :
    (fuel n : ℕ) (rest : Bytes) → 0 < fuel → length rest < length (digits fuel n rest)
unfolding digits
length-digits_pos zero n rest h = elim h [ ]
length-digits_pos (suc zero) n rest h = ground arith
length-digits_pos (suc (suc fuel)) n rest h =
    ground (arith, length-digits_pos (suc fuel) (n / 10) ((b'0' + n % 10) ∷ rest) (omega arith))

pub decimal_pos : (n : ℕ) → 0 < length (decimal n)
unfolding decimal
decimal_pos n = length-digits_pos 20 n [] (omega arith)
