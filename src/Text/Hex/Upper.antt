-- ===== src/Text/Hex/Upper.antt =====
-- The digits that printf writes for `%X`, and how strtoul reads them.
use tracep.Base.{
  Bool-cases, [], ap, arith, false, if◌then◌else◌, ltb, lt→ltb, refl, some, true, ℕ, ◌%◌, ◌*◌, ◌+◌,
  ◌/◌, ◌<◌, ◌==◌, ◌^◌, ◌||◌, ◌∙◌, ◌∷◌, ◌≡◌,
}
use tracep.Memory.{Bytes}
use tracep.Text.{is_space, skip_spaces}
use tracep.Text.Hex.{
  begins_with_hex, digit_value, hex_digits, hex_sign, is_sign, read_hex, skip_prefix, strtoul16,
}

-- the digit that `%X` prints
unfoldable pub hex_digit_upper : ℕ → ℕ
hex_digit_upper v = if ltb v 10 then b'0' + v else 55 + v

-- the digits of a byte
abbrev pub hex_byte : ℕ → Bytes → Bytes
hex_byte b rest = hex_digit_upper (b / 16) ∷ hex_digit_upper (b % 16) ∷ rest

abbrev pub IsByte : ℕ → Type 0
IsByte b = b < 256

pub digit_value-hex_digit : (v : ℕ) → v < 16 → digit_value (hex_digit_upper v) ≡ some v
unfolding digit_value hex_digit_upper
digit_value-hex_digit v lt = ground arith

pub read_hex_step :
    (acc v c : ℕ) (rest : Bytes)
    → digit_value c ≡ some v
    → read_hex acc (c ∷ rest) ≡ read_hex (acc * 16 + v) rest
unfolding read_hex
read_hex_step acc v c rest e = rw (e, read_hex) refl

pub read_hex-hex_byte :
    (acc b : ℕ) (rest : Bytes)
    → IsByte b
    → read_hex acc (hex_byte b rest) ≡ read_hex (acc * 256 + b) rest
read_hex-hex_byte acc b rest lt =
    let value : (acc * 16 + b / 16) * 16 + b % 16 ≡ acc * 256 + b = omega arith in
    read_hex_step acc (b / 16) _ _ (digit_value-hex_digit (b / 16) (omega arith))
    ∙ (read_hex_step (acc * 16 + b / 16) (b % 16) _ rest
          (digit_value-hex_digit (b % 16) (omega arith))
        ∙ ap (λ a. read_hex a rest) value)

-- A digit is no blank, no sign and no x.
pub digit_plain :
    (v : ℕ)
    → v < 16
    → (is_space (hex_digit_upper v) ≡ false)
      × (is_sign (hex_digit_upper v) ≡ false)
      × ((hex_digit_upper v == b'x' || hex_digit_upper v == b'X') ≡ false)
unfolding hex_digit_upper
digit_plain v lt = (ground arith, ground arith, ground arith)

pub begins_with_hex-hex_digit :
    (v : ℕ) (rest : Bytes) → v < 16 → begins_with_hex (hex_digit_upper v ∷ rest) ≡ true
unfolding begins_with_hex
begins_with_hex-hex_digit v rest lt = rw (digit_value-hex_digit v lt, begins_with_hex) refl

pub skip_prefix-hex_digit :
    (u v : ℕ) (rest : Bytes)
    → v < 16
    → skip_prefix (hex_digit_upper u ∷ hex_digit_upper v ∷ rest)
      ≡ hex_digit_upper u ∷ hex_digit_upper v ∷ rest
unfolding skip_prefix
skip_prefix-hex_digit u v rest lt =
    rw (digit_plain v lt).2 (ground (arith, Bool-cases (hex_digit_upper u == b'0')))

pub read_hex_nil : (n : ℕ) → read_hex n [] ≡ (n, [])
unfolding read_hex
read_hex_nil n = refl

-- The digits of a byte at the front: strtoul goes on with what follows them.
pub strtoul16-hex_byte :
    (b n : ℕ) (rest : Bytes)
    → IsByte b
    → read_hex 0 (hex_byte b rest) ≡ (n, [])
    → n < 2 ^ 64
    → strtoul16 (hex_byte b rest) ≡ (n, [])
unfolding strtoul16 skip_spaces hex_sign hex_digits
strtoul16-hex_byte b n rest lb read lt =
    let plain = digit_plain (b / 16) (omega arith) in
    rw
      (
        plain.0,
        plain.1,
        begins_with_hex-hex_digit (b / 16) (hex_digit_upper (b % 16) ∷ rest) (omega arith),
        skip_prefix-hex_digit (b / 16) (b % 16) rest (omega arith),
        read,
        lt→ltb n (2 ^ 64) lt,
      )
      refl

-- A byte, and two of them, at the end.
pub read_hex_byte : (b : ℕ) → IsByte b → read_hex 0 (hex_byte b []) ≡ (b, [])
read_hex_byte b lb =
    let value : 0 * 256 + b ≡ b = omega arith in
    read_hex-hex_byte 0 b [] lb ∙ (ap (λ n. read_hex n []) value ∙ read_hex_nil b)

pub read_hex_word16 :
    (p : ℕ) → p < 2 ^ 16 → read_hex 0 (hex_byte (p / 256) (hex_byte (p % 256) [])) ≡ (p, [])
read_hex_word16 p lt =
    let value : (0 * 256 + p / 256) * 256 + p % 256 ≡ p = omega arith in
    read_hex-hex_byte 0 (p / 256) _ (omega arith)
    ∙ (read_hex-hex_byte (0 * 256 + p / 256) (p % 256) [] (omega arith)
        ∙ (ap (λ n. read_hex n []) value ∙ read_hex_nil p))
