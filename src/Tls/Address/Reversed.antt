-- ===== src/Tls/Address/Reversed.antt =====
-- parse_hex_addr of c/tls.c on what a kernel with the lowest byte first prints of an IPv4 address.
use tracep.Base.{
  Bool-cases, [], arith, false, if◌then◌else◌, inl, inr, ltb, none, refl, some, ℕ, ◌%◌, ◌&&◌, ◌/◌,
  ◌<◌, ◌==◌, ◌^◌, ◌||◌, ◌∷◌, ◌≡◌,
}
use tracep.Memory.{Bytes}
use tracep.Net.Owner.Digits.{hex_word}
use tracep.Text.Hex.{cut_at}
use tracep.Text.Hex.Upper.{
  IsByte, hex_byte, hex_digit_upper, read_hex_byte, read_hex_word16, strtoul16-hex_byte,
}
use tracep.Tls.Address.{hex_end, ipv4_of, pair_bytes, port_of}

-- a port, in four digits
abbrev pub hex_port : ℕ → Bytes
hex_port p = hex_byte (p / 256) (hex_byte (p % 256) [])

pair_bytes-hex_byte :
    (b : ℕ) (rest s : Bytes)
    → IsByte b
    → pair_bytes rest ≡ some s
    → pair_bytes (hex_byte b rest) ≡ some (b ∷ s)
unfolding pair_bytes
pair_bytes-hex_byte b rest s lb more =
    let two = strtoul16-hex_byte b b [] lb (read_hex_byte b lb) (omega arith) in
    let same : b % 256 ≡ b = omega arith in rw (two, pair_bytes, more, same) refl

port_of-hex_port : (p : ℕ) → 0 < p → p < 2 ^ 16 → port_of (hex_port p) ≡ some p
unfolding port_of
port_of-hex_port p some_port lt =
    let read =
      strtoul16-hex_byte (p / 256) p (hex_byte (p % 256) []) (omega arith) (read_hex_word16 p lt)
        (omega arith) in
    let small : ltb 0xffff p ≡ false = ground (arith, lt) in
    let other : (p == 0) ≡ false = ground (arith, some_port) in
    rw (read, port_of, small, other) refl

no_colon_digit : (v : ℕ) → v < 16 → (hex_digit_upper v == b':') ≡ false
unfolding hex_digit_upper
no_colon_digit v lt = ground arith

cut_at-hex_byte :
    (b : ℕ) (s x y : Bytes)
    → IsByte b
    → cut_at b':' s ≡ some (x, y)
    → cut_at b':' (hex_byte b s) ≡ some (hex_byte b x, y)
unfolding cut_at
cut_at-hex_byte b s x y lb e =
    rw (no_colon_digit (b / 16) (omega arith), cut_at, no_colon_digit (b % 16) (omega arith), e)
      refl

cut_here : (s : Bytes) → cut_at b':' (b':' ∷ s) ≡ some ([], s)
unfolding cut_at
cut_here s = refl

pair_bytes_nil : pair_bytes [] ≡ some []
unfolding pair_bytes
pair_bytes_nil = refl

module _ (a b c d : ℕ) (la : IsByte a) (lb : IsByte b) (lc : IsByte c) (ld : IsByte d) where
  cut_word : (s : Bytes) → cut_at b':' (hex_word a b c d (b':' ∷ s)) ≡ some (hex_word a b c d [], s)
  cut_word s = cut_at-hex_byte d _ (hex_byte c (hex_byte b (hex_byte a []))) s ld (
      cut_at-hex_byte c _ (hex_byte b (hex_byte a [])) s lc (
        cut_at-hex_byte b _ (hex_byte a []) s lb
          (cut_at-hex_byte a (b':' ∷ s) [] s la (cut_here s))))

  pair_bytes_word : pair_bytes (hex_word a b c d []) ≡ some (d ∷ c ∷ b ∷ a ∷ [])
  pair_bytes_word = pair_bytes-hex_byte d _ (c ∷ b ∷ a ∷ []) ld (
      pair_bytes-hex_byte c _ (b ∷ a ∷ []) lc
        (pair_bytes-hex_byte b _ (a ∷ []) lb (pair_bytes-hex_byte a [] [] la pair_bytes_nil)))

  -- Of the digits that a kernel on a machine with the lowest byte first prints for an IPv4 address
  -- and a port that is not 0, parse_hex_addr takes the address with its four bytes in the reverse
  -- order; it takes none if the last byte is 127, or if all are 0.
  pub hex_end-hex_word :
      (p : ℕ)
      → 0 < p
      → p < 2 ^ 16
      → hex_end (hex_word a b c d (b':' ∷ hex_port p)) false ≡ (
          if d == 127 || d == 0 && (c == 0 && (b == 0 && a == 0))
          then none
          else some (d ∷ c ∷ b ∷ a ∷ [], p))
  unfolding hex_end ipv4_of
  hex_end-hex_word p some_port lt =
      rw (cut_word (hex_port p), hex_end, port_of-hex_port p some_port lt, pair_bytes_word)
        (elim (Bool-cases (d == 127 || d == 0 && (c == 0 && (b == 0 && a == 0)))) [
          | inl bad_one ↦ rw bad_one refl
          | inr good ↦ rw good refl
        ])
