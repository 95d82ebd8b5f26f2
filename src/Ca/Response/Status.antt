-- ===== src/Ca/Response/Status.antt =====
-- The status that http_get_once of c/ca.c reads from the first line of an answer.
use tracep.Base.{
  All, [], ap, arith, false, length, ltb, refl, some, true, ℕ, ◌%◌, ◌++◌, ◌<◌, ◌==◌, ◌^◌, ◌∷◌, ◌≡◌,
}
use tracep.Ca.Response.{scan_int, status_minor, status_of}
use tracep.Int.{int32, pos}
use tracep.Memory.{Bytes, ◌>>=◌}
use tracep.Text.{
  codes, decimal, is_digit, is_space, long_max, read_digits, skip_spaces, strtol_digits,
  strtol_sign,
}
use tracep.Text.Decimal.{
  IsDigit, Stops, decimal_digits, length-decimal_pos, read_digits-decimal_rest,
}

-- strtol behind its blanks.
strtol_sign-digits :
    (whole : Bytes) (c : ℕ) (s : Bytes) (n : ℕ) (rest : Bytes)
    → IsDigit c
    → read_digits 0 (c ∷ s) ≡ (n, rest)
    → n < 2 ^ 31
    → strtol_sign whole (c ∷ s) ≡ record { value = pos n; end = rest; any = true; erange = false }
unfolding strtol_sign
strtol_sign-digits whole c s n rest digit read lt =
    let minus : (c == b'-') ≡ false = ground (arith, digit) in
    let plus : (c == b'+') ≡ false = ground (arith, digit) in
    let is_one : is_digit c ≡ true = ground (arith, digit) in
    let small : ltb long_max n ≡ false = ground (arith, lt) in
    rw (strtol_sign, minus, plus, strtol_digits, is_one, read, small) refl

scan_int-digits :
    (c : ℕ) (s : Bytes) (n : ℕ) (rest : Bytes)
    → IsDigit c
    → read_digits 0 (c ∷ s) ≡ (n, rest)
    → n < 2 ^ 31
    → scan_int (b' ' ∷ c ∷ s) ≡ some (pos n, rest)
unfolding scan_int skip_spaces
scan_int-digits c s n rest digit read lt =
    let space : is_space c ≡ false = ground (arith, digit) in
    rw (space, strtol_sign-digits (b' ' ∷ c ∷ s) c s n rest digit read lt) refl

scan_int-decimal :
    (n : ℕ) (rest : Bytes)
    → Stops rest
    → n < 2 ^ 31
    → scan_int (b' ' ∷ decimal n ++ rest) ≡ some (pos n, rest)
scan_int-decimal n rest stops lt =
    from (decimal n) (length-decimal_pos n) (decimal_digits n)
      (read_digits-decimal_rest n rest stops)
  where
    from :
        (s : Bytes)
        → 0 < length s
        → All IsDigit s
        → read_digits 0 (s ++ rest) ≡ (n, rest)
        → scan_int (b' ' ∷ s ++ rest) ≡ some (pos n, rest)
    from [] some_digit h e = absurd (omega arith)
    from (c ∷ s) some_digit h e = scan_int-digits c (s ++ rest) n rest h.0 e lt

scan_int-major : (s : Bytes) → scan_int (codes "1.1 " ++ s) ≡ some (pos 1, codes ".1 " ++ s)
unfolding scan_int
scan_int-major s = refl

scan_int-minor : (s : Bytes) → scan_int (codes "1 " ++ s) ≡ some (pos 1, b' ' ∷ s)
unfolding scan_int
scan_int-minor s = refl

status_minor-code :
    (n : ℕ) (s : Bytes)
    → n < 2 ^ 31
    → status_minor (codes "HTTP/1.1 " ++ (decimal n ++ b' ' ∷ s)) ≡ some n
unfolding status_minor
status_minor-code n s lt =
    let text = decimal n ++ b' ' ∷ s in
    let small : n % 2 ^ 32 ≡ n = omega (arith, lt) in
    rw
      (
        status_minor,
        scan_int-major text,
        ◌>>=◌,
        scan_int-minor text,
        scan_int-decimal n (b' ' ∷ s) refl lt,
        int32,
      )
      (ap some small)

pub status_of-code :
    (n : ℕ) (s : Bytes) → n < 2 ^ 31 → status_of (codes "HTTP/1.1 " ++ (decimal n ++ b' ' ∷ s)) ≡ n
unfolding status_of
status_of-code n s lt = rw (status_minor-code n s lt, status_of) refl
