-- ===== src/Dns/Json.antt =====
-- json_escape of c/dns.c, which emit calls for each text of a JSON line.
pub mod Reading
use tracep.Base.{
  [], false, if◌then◌else◌, length, ltb, true, ℕ, ◌%◌, ◌++◌, ◌+◌, ◌-◌, ◌/◌, ◌==◌, ◌||◌, ◌∷◌,
}
use tracep.Memory.{Bytes, cstr}

abbrev pub double_quote : ℕ
double_quote = 34

-- a digit of %x
unfoldable pub hex_digit : ℕ → ℕ
hex_digit k = if ltb k 10 then b'0' + k else b'a' + (k - 10)

-- `%04x` of a number below 2 ^ 16
pub hex4 : ℕ → Bytes
unfolding hex_digit
hex4 n =
    hex_digit (n / 4096 % 16)
    ∷ hex_digit (n / 256 % 16)
    ∷ hex_digit (n / 16 % 16)
    ∷ hex_digit (n % 16)
    ∷ []

-- what the loop writes for one character
unfoldable pub json_byte : ℕ → Bytes
unfolding hex4
json_byte c =
    if c == double_quote || c == b'\\'
    then b'\\' ∷ c ∷ []
    else if ltb c 0x20
    then b'\\' ∷ b'u' ∷ hex4 c
    else c ∷ []

-- `for (; *s && w < cap - 8; s++)`, with what is written so far
unfoldable pub json_onto : ℕ → Bytes → Bytes → Bytes
json_onto size w [] = w
json_onto size w (c ∷ s) = elim (ltb (length w) (size - 8)) [
  | true ↦ json_onto size (w ++ json_byte c) s
  | false ↦ w
]

unfoldable pub json_escape : ℕ → Bytes → Bytes
json_escape size s = json_onto size [] (cstr s)
