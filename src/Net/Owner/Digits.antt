-- ===== src/Net/Owner/Digits.antt =====
-- The addresses of /proc/net that parse_hex_ipv4 and parse_hex_ipv6 of c/net.c read, against the digits
-- that the kernel prints.
use mathlib.Core.Path.{subst}
use tracep.Base.{All, List, [], ap, arith, length, refl, some, ℕ, ◌*◌, ◌+◌, ◌^◌, ◌∙◌, ◌∷◌, ◌≡◌}
use tracep.Memory.{Bytes}
use tracep.Net.Owner.{hex_word_value, hex_words, parse_hex_ipv4, parse_hex_ipv6, word_bytes}
use tracep.Text.Hex.{read_hex, strtoul16}
use tracep.Text.Hex.Upper.{IsByte, hex_byte, read_hex-hex_byte, read_hex_nil, strtoul16-hex_byte}

-- `%08X` of the word that four bytes are in memory, on a machine with the lowest byte first
abbrev pub hex_word : ℕ → ℕ → ℕ → ℕ → Bytes → Bytes
hex_word a b c d rest = hex_byte d (hex_byte c (hex_byte b (hex_byte a rest)))

module _ (a b c d : ℕ) (la : IsByte a) (lb : IsByte b) (lc : IsByte c) (ld : IsByte d) where
  abbrev total : ℕ
  total = a + b * 256 + c * 2 ^ 16 + d * 2 ^ 24

  read_hex-hex_word : (rest : Bytes) → read_hex 0 (hex_word a b c d rest) ≡ read_hex total rest
  read_hex-hex_word rest =
      let value : (((0 * 256 + d) * 256 + c) * 256 + b) * 256 + a ≡ total = omega arith in
      read_hex-hex_byte 0 d _ ld
      ∙ (read_hex-hex_byte (0 * 256 + d) c _ lc
          ∙ (read_hex-hex_byte ((0 * 256 + d) * 256 + c) b _ lb
              ∙ (read_hex-hex_byte (((0 * 256 + d) * 256 + c) * 256 + b) a rest la
                  ∙ ap (λ n. read_hex n rest) value)))

  strtoul16-hex_word : strtoul16 (hex_word a b c d []) ≡ (total, [])
  strtoul16-hex_word =
      strtoul16-hex_byte d total (hex_byte c (hex_byte b (hex_byte a []))) ld
        (read_hex-hex_word [] ∙ read_hex_nil total) (omega arith)

  word_bytes-total : word_bytes total ≡ a ∷ b ∷ c ∷ d ∷ []
  word_bytes-total = ground arith

  hex_word_value-hex_word : hex_word_value (hex_word a b c d []) ≡ some (a ∷ b ∷ c ∷ d ∷ [])
  unfolding hex_word_value
  hex_word_value-hex_word = rw strtoul16-hex_word (ap some word_bytes-total)

  pub parse_hex_ipv4-hex_word : parse_hex_ipv4 (hex_word a b c d []) ≡ some (a ∷ b ∷ c ∷ d ∷ [])
  unfolding parse_hex_ipv4
  parse_hex_ipv4-hex_word = hex_word_value-hex_word

-- the words of an address
abbrev pub Word : Type 0
Word = ℕ × ℕ × ℕ × ℕ

abbrev pub IsWord : Word → Type 0
IsWord (a, b, c, d) = IsByte a × IsByte b × IsByte c × IsByte d

abbrev pub hex_of : List Word → Bytes
hex_of [] = []
hex_of ((a, b, c, d) ∷ ws) = hex_word a b c d (hex_of ws)

abbrev pub bytes_of : List Word → Bytes
bytes_of [] = []
bytes_of ((a, b, c, d) ∷ ws) = a ∷ b ∷ c ∷ d ∷ bytes_of ws

length-hex_of : (ws : List Word) → length (hex_of ws) ≡ 8 * length ws
length-hex_of [] = omega arith
length-hex_of ((a, b, c, d) ∷ ws) = omega (arith, length-hex_of ws)

hex_words-hex_of :
    (ws : List Word) → All IsWord ws → hex_words (length ws) (hex_of ws) ≡ some (bytes_of ws)
unfolding hex_words
hex_words-hex_of [] h = refl
hex_words-hex_of ((a, b, c, d) ∷ ws) ((la, lb, lc, ld), h) =
    rw (hex_word_value-hex_word a b c d la lb lc ld, hex_words, hex_words-hex_of ws h) refl

-- The 32 digits that a kernel on a machine with the lowest byte first prints of an address of 16
-- bytes are read back by parse_hex_ipv6 as these bytes.
parse_hex_ipv6-hex_of :
    (ws : List Word)
    → length ws ≡ 4
    → All IsWord ws
    → parse_hex_ipv6 (hex_of ws) ≡ some (bytes_of ws)
unfolding parse_hex_ipv6
parse_hex_ipv6-hex_of ws four h =
    let size : length (hex_of ws) ≡ 32 = omega (arith, length-hex_of ws) in
    rw size (subst (λ n. hex_words n (hex_of ws) ≡ some (bytes_of ws)) four (hex_words-hex_of ws h))
