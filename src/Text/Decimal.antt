-- ===== src/Text/Decimal.antt =====
-- The digits that printf writes, and how strtol reads them.
use native.Mathlib.Nat.{pow-suc}
use tracep.Base.{
  All, Bool-cases, [], ap, arith, false, inl, inr, length, ltb, ltb→ge, ltb→lt, lt→ltb, refl, suc,
  sym, true, zero, ℕ, ◌%◌, ◌*◌, ◌++◌, ◌+◌, ◌-◌, ◌/◌, ◌<◌, ◌^◌, ◌∙◌, ◌∷◌, ◌≡◌, ◌≤◌,
}
use tracep.Memory.{Bytes}
use tracep.Text.{begins_with_digit, decimal, decimal_onto, is_digit, read_digits}

-- The text does not begin with a digit.
abbrev pub Stops : Bytes → Type 0
Stops s = begins_with_digit s ≡ false

read_digits-Stops : (acc : ℕ) (s : Bytes) → Stops s → read_digits acc s ≡ (acc, s)
unfolding read_digits
read_digits-Stops acc [] h = refl
read_digits-Stops acc (c ∷ s) h = rw (h, read_digits) refl

digit_is_digit : (k : ℕ) → k < 10 → is_digit (b'0' + k) ≡ true
digit_is_digit k lt = ground arith

-- The digits of `n`, read behind those of `acc`, and ten to their number.
read_digits-decimal_onto :
    (rounds n acc : ℕ) (rest : Bytes)
    → n < rounds
    → (p : ℕ) × (read_digits acc (decimal_onto rounds n rest) ≡ read_digits (acc * p + n) rest)
unfolding decimal_onto read_digits
read_digits-decimal_onto zero n acc rest lt = absurd (omega arith)
read_digits-decimal_onto (suc rounds) n acc rest lt = elim (Bool-cases (ltb n 10)) [
  | inl small ↦
      let digit = digit_is_digit n (ltb→lt n 10 small) in
      let value : acc * 10 + (b'0' + n - b'0') ≡ acc * 10 + n = omega arith in
      (10, rw (small, decimal_onto, digit, read_digits) (ap (λ a. read_digits a rest) value))
  | inr large ↦
      let ge = ltb→ge n 10 large in
      let (p, e) =
        read_digits-decimal_onto rounds (n / 10) acc ((b'0' + n % 10) ∷ rest) (omega arith) in
      let digit = digit_is_digit (n % 10) (omega arith) in
      let value : (acc * p + n / 10) * 10 + (b'0' + n % 10 - b'0') ≡ acc * (p * 10) + n =
        omega arith in
      (
        p * 10,
        rw (large, decimal_onto) (e ∙ rw (digit, read_digits) (ap (λ a. read_digits a rest) value)),
      )
]

-- A digit, which is neither of the separators of the texts with numbers.
abbrev pub IsDigit : ℕ → Type 0
IsDigit c = (b'0' ≤ c) × (c ≤ b'9')

decimal_onto_digits :
    (rounds n : ℕ) (rest : Bytes) → All IsDigit rest → All IsDigit (decimal_onto rounds n rest)
unfolding decimal_onto
decimal_onto_digits zero n rest h = h
decimal_onto_digits (suc rounds) n rest h = elim (Bool-cases (ltb n 10)) [
  | inl small ↦ rw (small, decimal_onto) ((omega arith, ground (arith, small)), h)
  | inr large ↦
      rw (large, decimal_onto)
        (decimal_onto_digits rounds (n / 10) _ ((omega arith, omega arith), h))
]

pub decimal_digits : (n : ℕ) → All IsDigit (decimal n)
unfolding decimal
decimal_digits n = decimal_onto_digits (n + 1) n [] tt

ten_step : (n k : ℕ) → n < 10 ^ suc (suc k) → n / 10 < 10 ^ suc k
ten_step n k lt = omega (arith, pow-suc 10 (suc k))

length-decimal_onto :
    (rounds n k : ℕ) (rest : Bytes)
    → n < 10 ^ suc k
    → length (decimal_onto rounds n rest) ≤ length rest + suc k
unfolding decimal_onto
length-decimal_onto zero n k rest lt = omega arith
length-decimal_onto (suc rounds) n zero rest lt =
    rw (lt→ltb n 10 (omega arith), decimal_onto) (omega arith)
length-decimal_onto (suc rounds) n (suc k) rest lt = elim (Bool-cases (ltb n 10)) [
  | inl small ↦ rw (small, decimal_onto) (omega arith)
  | inr large ↦
      rw (large, decimal_onto)
        (omega
          (arith, length-decimal_onto rounds (n / 10) k ((b'0' + n % 10) ∷ rest) (ten_step n k lt)))
]

pub length-decimal : (n k : ℕ) → n < 10 ^ suc k → length (decimal n) ≤ suc k
unfolding decimal
length-decimal n k lt = omega (arith, length-decimal_onto (n + 1) n k [] lt)

pub read_digits-decimal : (n : ℕ) → read_digits 0 (decimal n) ≡ (n, [])
unfolding decimal
read_digits-decimal n =
    let (p, e) = read_digits-decimal_onto (n + 1) n 0 [] (omega arith) in
    let value : 0 * p + n ≡ n = omega arith in
    e ∙ (ap (λ m. read_digits m []) value ∙ read_digits-Stops n [] refl)

value_of : (n : ℕ) → (read_digits 0 (decimal n)).0 ≡ n
value_of n = ap (λ r. r.0) (read_digits-decimal n)

pub decimal_injective : (m n : ℕ) → decimal m ≡ decimal n → m ≡ n
decimal_injective m n e = sym (value_of m) ∙ (ap (λ s. (read_digits 0 s).0) e ∙ value_of n)

decimal_onto_some :
    (rounds n : ℕ) (rest : Bytes)
    → 0 < rounds + length rest
    → 0 < length (decimal_onto rounds n rest)
unfolding decimal_onto
decimal_onto_some zero n rest h = omega arith
decimal_onto_some (suc rounds) n rest h = elim (Bool-cases (ltb n 10)) [
  | inl small ↦ rw (small, decimal_onto) (omega arith)
  | inr large ↦ rw (large, decimal_onto) (decimal_onto_some rounds (n / 10) _ (omega arith))
]

pub length-decimal_pos : (n : ℕ) → 0 < length (decimal n)
unfolding decimal
length-decimal_pos n = decimal_onto_some (n + 1) n [] (omega arith)

read_digits-append :
    (acc : ℕ) (s rest : Bytes)
    → All IsDigit s
    → read_digits acc (s ++ rest) ≡ read_digits (read_digits acc s).0 rest
unfolding read_digits
read_digits-append acc [] rest h = refl
read_digits-append acc (c ∷ s) rest h =
    let one : is_digit c ≡ true = ground (arith, h.0) in
    rw (one, read_digits) (read_digits-append (acc * 10 + (c - b'0')) s rest h.1)

-- A number with something else behind it.
pub read_digits-decimal_rest :
    (n : ℕ) (rest : Bytes) → Stops rest → read_digits 0 (decimal n ++ rest) ≡ (n, rest)
read_digits-decimal_rest n rest h =
    read_digits-append 0 (decimal n) rest (decimal_digits n)
    ∙ rw (read_digits-decimal n) (read_digits-Stops n rest h)
