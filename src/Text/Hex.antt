-- ===== src/Text/Hex.antt =====
-- strtoul in base 16 and strtoull in base 10, on 64 bits, and the fields and lines that strtok, strchr
-- and fgets cut from a text.
pub mod Upper
use mathlib.Core.Option
use tracep.Base.{
  Bool, List, Option, [], false, if◌then◌else◌, leb, ltb, none, some, true, ℕ, ◌%◌, ◌&&◌, ◌*◌, ◌++◌,
  ◌+◌, ◌-◌, ◌==◌, ◌^◌, ◌||◌, ◌∷◌,
}
use tracep.Memory.{Bytes}
use tracep.Text.{read_digits, skip_spaces}

-- the value of a hexadecimal digit
unfoldable pub digit_value : ℕ → Option ℕ
digit_value c =
    if leb b'0' c && leb c b'9'
    then some (c - b'0')
    else if leb b'a' c && leb c b'f'
    then some (c - 87)
    else if leb b'A' c && leb c b'F'
    then some (c - 55)
    else none

unfoldable pub read_hex : ℕ → Bytes → ℕ × Bytes
read_hex acc [] = (acc, [])
read_hex acc (c ∷ s) = elim (digit_value c) [
  | some v ↦ read_hex (acc * 16 + v) s
  | none ↦ (acc, c ∷ s)
]

-- what strtoul makes of a number behind the sign: the limit, or the negation in 64 bits
abbrev pub wrapped : Bool → ℕ → ℕ
wrapped negative n =
    if ltb n (2 ^ 64) then (if negative then (2 ^ 64 - n) % 2 ^ 64 else n) else 2 ^ 64 - 1

unfoldable pub begins_with_hex : Bytes → Bool
begins_with_hex [] = false
begins_with_hex (c ∷ s) = elim (digit_value c) [ none ↦ false | some v ↦ true ]

-- the optional 0x, which counts only in front of a digit
unfoldable pub skip_prefix : Bytes → Bytes
skip_prefix (z ∷ x ∷ s) =
    if z == b'0' && (x == b'x' || x == b'X') && begins_with_hex s then s else z ∷ x ∷ s
skip_prefix s = s

unfoldable pub hex_digits : Bytes → Bool → Bytes → ℕ × Bytes
hex_digits whole negative s =
    if begins_with_hex s
    then (let (n, rest) = read_hex 0 (skip_prefix s) in (wrapped negative n, rest))
    else (0, whole)

abbrev pub is_sign : ℕ → Bool
is_sign c = c == b'-' || c == b'+'

unfoldable pub hex_sign : Bytes → Bytes → ℕ × Bytes
hex_sign whole [] = (0, whole)
hex_sign whole (c ∷ s) =
    if is_sign c then hex_digits whole (c == b'-') s else hex_digits whole false (c ∷ s)

-- strtoul(s, &end, 16): the value, and `end`
unfoldable pub strtoul16 : Bytes → ℕ × Bytes
unfolding hex_sign skip_spaces
strtoul16 s = hex_sign s (skip_spaces s)

unfoldable pub ull_sign : Bytes → ℕ
unfolding read_digits
ull_sign [] = 0
ull_sign (c ∷ s) =
    if is_sign c
    then wrapped (c == b'-') (read_digits 0 s).0
    else wrapped false (read_digits 0 (c ∷ s)).0

-- strtoull(s, &end, 10)
unfoldable pub strtoull : Bytes → ℕ
unfolding ull_sign skip_spaces
strtoull s = ull_sign (skip_spaces s)

-- a separator of strtok(s, " \t\n")
abbrev pub is_blank : ℕ → Bool
is_blank c = c == b' ' || c == 9 || c == 10

-- the calls of strtok until NULL, with the field that has begun
unfoldable pub fields_from : Bytes → Bytes → List Bytes
fields_from [] [] = []
fields_from (x ∷ field) [] = (x ∷ field) ∷ []
fields_from [] (c ∷ s) = fields_from (if is_blank c then [] else c ∷ []) s
fields_from (x ∷ field) (c ∷ s) = elim (is_blank c) [
  | true ↦ (x ∷ field) ∷ fields_from [] s
  | false ↦ fields_from (x ∷ field ++ c ∷ []) s
]

unfoldable pub fields_of : Bytes → List Bytes
unfolding fields_from
fields_of s = fields_from [] s

-- strchr(s, c): what stands in front of the first one, and behind it
unfoldable pub cut_at : ℕ → Bytes → Option (Bytes × Bytes)
cut_at c [] = none
cut_at c (x ∷ s) = elim (x == c) [
  | true ↦ some ([], s)
  | false ↦ Option.map (λ r. (x ∷ r.0, r.1)) (cut_at c s)
]

-- the calls of fgets until NULL: a line ends behind a newline, or with `room` characters
unfoldable pub lines_from : ℕ → ℕ → Bytes → Bytes → List Bytes
lines_from room left [] [] = []
lines_from room left (x ∷ line) [] = (x ∷ line) ∷ []
lines_from room left line (c ∷ s) = elim (c == 10 || left == 1) [
  | true ↦ (line ++ c ∷ []) ∷ lines_from room room [] s
  | false ↦ lines_from room (left - 1) (line ++ c ∷ []) s
]
