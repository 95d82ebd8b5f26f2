-- ===== src/Text.antt =====
-- Text as lists of bytes: literals, decimal numbers as printf and strtol write and read them.
pub mod Decimal
pub mod Hex
use Prim.Native.Char.{code}
use Prim.Native.String.{String}
use tracep.Base.{
  Bool, List, [], arith, false, if◌then◌else◌, leb, ltb, suc, true, zero, ℕ, ◌%◌, ◌&&◌, ◌*◌, ◌+◌,
  ◌-◌, ◌/◌, ◌==◌, ◌^◌, ◌||◌, ◌↔◌, ◌∷◌, ◌≡◌,
}
use tracep.Int.{neg, pos, ℤ}
use tracep.Memory.{Bytes}

-- The code points of a literal: its bytes, if it is ASCII.
abbrev pub codes : String → List ℕ
codes String.[] = []
codes (String.◌∷◌ c s) = code c ∷ codes s

-- the decimal digits of `n` in front of `rest`; one round for each digit
pub decimal_onto : ℕ → ℕ → Bytes → Bytes
decimal_onto zero n rest = rest
decimal_onto (suc rounds) n rest = elim (ltb n 10) [
  | true ↦ (b'0' + n) ∷ rest
  | false ↦ decimal_onto rounds (n / 10) ((b'0' + n % 10) ∷ rest)
]

-- `printf("%u", n)`
unfoldable pub decimal : ℕ → Bytes
unfolding decimal_onto
decimal n = decimal_onto (n + 1) n []

-- strcmp(a, b) == 0
unfoldable pub same_text : Bytes → Bytes → Bool
same_text [] [] = true
same_text (x ∷ a) (y ∷ b) = x == y && same_text a b
same_text _ _ = false

pub same_text_iff : (a b : Bytes) → (same_text a b ≡ true) ↔ (a ≡ b)
unfolding same_text
same_text_iff (x ∷ a) (y ∷ b) = ground (arith, same_text_iff a b)
same_text_iff _ _ = ground arith

abbrev pub is_digit : ℕ → Bool
is_digit c = leb b'0' c && leb c b'9'

-- isspace in the C locale
abbrev pub is_space : ℕ → Bool
is_space c = c == b' ' || leb 9 c && leb c 13

unfoldable pub skip_spaces : Bytes → Bytes
skip_spaces [] = []
skip_spaces (c ∷ s) = if is_space c then skip_spaces s else c ∷ s

-- The number that the digits at the front add to `acc`, and what follows them.
pub read_digits : ℕ → Bytes → ℕ × Bytes
read_digits acc [] = (acc, [])
read_digits acc (c ∷ s) = elim (is_digit c) [
  | true ↦ read_digits (acc * 10 + (c - b'0')) s
  | false ↦ (acc, c ∷ s)
]

-- The result of strtol(s, &end, 10): its value, `end`, `end != s`, and ERANGE.
pub record Strtol : Type 0 where
  pub value : ℤ
  pub end : Bytes
  pub any : Bool
  pub erange : Bool

abbrev pub long_max : ℕ
long_max = 2 ^ 63 - 1

-- what strtol makes of the digits, with the limit on each side
abbrev pub clamped : Bool → ℕ → ℤ
clamped negative n =
    if negative
    then (if ltb (long_max + 1) n then neg (long_max + 1) else neg n)
    else (if ltb long_max n then pos long_max else pos n)

abbrev pub begins_with_digit : Bytes → Bool
begins_with_digit [] = false
begins_with_digit (c ∷ s) = is_digit c

unfoldable pub strtol_digits : Bytes → Bool → Bytes → Strtol
unfolding read_digits
strtol_digits whole negative s =
    if begins_with_digit s
    then (let (n, rest) = read_digits 0 s in
        record {
          value = clamped negative n;
          end = rest;
          any = true;
          erange = if negative then ltb (long_max + 1) n else ltb long_max n;
        })
    else record { value = pos 0; end = whole; any = false; erange = false }

unfoldable pub strtol_sign : Bytes → Bytes → Strtol
unfolding strtol_digits
strtol_sign whole [] = strtol_digits whole false []
strtol_sign whole (c ∷ s) =
    if c == b'-'
    then strtol_digits whole true s
    else if c == b'+'
    then strtol_digits whole false s
    else strtol_digits whole false (c ∷ s)

unfoldable pub strtol : Bytes → Strtol
unfolding skip_spaces strtol_sign
strtol s = strtol_sign s (skip_spaces s)
