-- ===== src/Net/Lsof/Ends.antt =====
-- split_host_port of c/net.c reads back what join_host_port writes.
use mathlib.Core.List.{append-nil}
use tracep.Base.{
  ==_iff, All, All-map, Bool-cases, Option-cases, [], arith, false, inl, inr, length, length-append,
  ltb, lt→ltb, none, refl, some, sym, take_all, true, ℕ, ◌++◌, ◌<◌, ◌==◌, ◌^◌, ◌∙◌, ◌∷◌, ◌≡◌, ◌≢◌,
  ◌≤◌,
}
use tracep.Exec.Line.{pid_text}
use tracep.Int.{int32}
use tracep.Memory.{Bytes}
use tracep.Net.Line.Keys.{cut_last, no_colon}
use tracep.Net.Lsof.{
  atoi, begins_with_star, bracketed, cut_last_at, cut_text, join_host_port, plain_end,
  split_host_port,
}
use tracep.Text.{
  codes, decimal, is_digit, is_space, long_max, read_digits, same_text, same_text_iff,
  strtol_digits, strtol_sign,
}
use tracep.Text.Decimal.{
  IsDigit, Stops, decimal_digits, length-decimal, length-decimal_pos, read_digits-decimal_rest,
}
use tracep.Text.Hex.{cut_at}
use tracep.Tls.Events.{behind}

-- strtol on digits that begin no other way
strtol_plain :
    (c : ℕ) (s : Bytes) (n : ℕ) (rest : Bytes)
    → IsDigit c
    → read_digits 0 (c ∷ s) ≡ (n, rest)
    → n < 2 ^ 31
    → atoi (c ∷ s) ≡ n
unfolding atoi
strtol_plain c s n rest digit read lt =
    let space : is_space c ≡ false = ground (arith, digit) in
    let minus : (c == b'-') ≡ false = ground (arith, digit) in
    let plus : (c == b'+') ≡ false = ground (arith, digit) in
    let is_one : is_digit c ≡ true = ground (arith, digit) in
    let small : ltb long_max n ≡ false = ground (arith, lt) in
    rw (space, strtol_sign, minus, plus, strtol_digits, is_one, read, small, int32) (omega arith)

pub atoi-decimal : (n : ℕ) (rest : Bytes) → Stops rest → n < 2 ^ 31 → atoi (decimal n ++ rest) ≡ n
atoi-decimal n rest stops lt =
    from (decimal n) (length-decimal_pos n) (decimal_digits n)
      (read_digits-decimal_rest n rest stops)
  where
    from :
        (s : Bytes)
        → 0 < length s
        → All IsDigit s
        → read_digits 0 (s ++ rest) ≡ (n, rest)
        → atoi (s ++ rest) ≡ n
    from [] some_digit h e = absurd (omega arith)
    from (c ∷ s) some_digit h e = strtol_plain c (s ++ rest) n rest h.0 e lt

atoi-decimal_alone : (n : ℕ) → n < 2 ^ 31 → atoi (decimal n) ≡ n
atoi-decimal_alone n lt = rw (sym (append-nil (decimal n))) (atoi-decimal n [] refl lt)

cut_last_at-none : (c : ℕ) (s : Bytes) → All (λ x. x ≢ c) s → cut_last_at c s ≡ none
unfolding cut_last_at
cut_last_at-none c [] h = refl
cut_last_at-none c (x ∷ s) h =
    let other : (x == c) ≡ false = ground (arith, h.0) in rw (cut_last_at-none c s h.1, other) refl

cut_last_at_sep :
    (c : ℕ) (a s : Bytes) → All (λ x. x ≢ c) s → cut_last_at c (a ++ c ∷ s) ≡ some (a, s)
unfolding cut_last_at
cut_last_at_sep c [] s h = rw (cut_last_at-none c s h, (==_iff c c).1 refl) refl
cut_last_at_sep c (x ∷ a) s h = rw (cut_last_at_sep c a s h) refl

cut_text_bracket :
    (a s : Bytes)
    → All (λ x. x ≢ b']') a
    → cut_text (codes "]:") (a ++ (codes "]:" ++ s)) ≡ some (a, s)
unfolding cut_text
cut_text_bracket [] s h = refl
cut_text_bracket (x ∷ a) s h =
    let other : (b']' == x) ≡ false = ground (arith, h.0) in
    rw (cut_text, behind, other, cut_text_bracket a s h.1) refl

-- The text of an address: some characters, none of them a bracket, and no star alone.
pub record IsHost (ip : Bytes) : Type 0 where
  pub filled : 0 < length ip
  pub short : length ip ≤ 45
  pub no_star : ip ≢ b'*' ∷ []
  pub plain : All (λ c. (c ≢ b'[') × (c ≢ b']')) ip

-- A text that begins with no bracket and is not the one of an unbound end.
abbrev Opens : Bytes → Type 0
Opens [] = ⊥
Opens (c ∷ s) = c ≢ b'['

split_plain :
    (s : Bytes) → Opens s → same_text s (codes "*:*") ≡ false → split_host_port s ≡ plain_end s
unfolding split_host_port
split_plain [] h e = elim h [ ]
split_plain (c ∷ s) h e =
    let other : (c == b'[') ≡ false = ground (arith, h) in rw (e, split_host_port, other) refl

front :
    (ip rest : Bytes) → 0 < length ip → All (λ c. (c ≢ b'[') × (c ≢ b']')) ip → Opens (ip ++ rest)
front [] rest h k = absurd (omega arith)
front (c ∷ ip) rest h k = k.0.0

module _ (ip : Bytes) (host : IsHost ip) (port : ℕ) (lt : port < 2 ^ 31) where
  pid_text_port : pid_text port ≡ decimal port
  unfolding pid_text
  pid_text_port = rw (lt→ltb port (2 ^ 31) lt) refl

  short_port : length (decimal port) ≤ 10
  short_port = length-decimal port 9 (omega arith)

  bracketed_lem : bracketed (ip ++ (codes "]:" ++ decimal port)) ≡ (ip, port)
  unfolding bracketed
  bracketed_lem =
      rw
        (
          cut_text_bracket ip (decimal port) (All-map _ (λ c. c ≢ b']') ip (λ c h. h.1) host.plain),
          bracketed,
          atoi-decimal_alone port lt,
          take_all 63 ip (omega (arith, host.short)),
        )
        refl

  no_star_text : same_text ip (codes "*") ≡ false
  no_star_text = elim (Bool-cases (same_text ip (codes "*"))) [
    | inl e ↦ absurd (host.no_star ((same_text_iff ip (codes "*")).0 e))
    | inr e ↦ e
  ]

  starts_plain : (s : Bytes) → All IsDigit s → begins_with_star s ≡ false
  starts_plain [] h = refl
  starts_plain (c ∷ s) h = ground (arith, h.0)

  plain_end_lem : plain_end (ip ++ b':' ∷ decimal port) ≡ (ip, port)
  unfolding plain_end
  plain_end_lem =
      rw
        (
          cut_last_at_sep b':' ip (decimal port) (no_colon port),
          plain_end,
          take_all 63 ip (omega (arith, host.short)),
          no_star_text,
          starts_plain (decimal port) (decimal_digits port),
          atoi-decimal_alone port lt,
        )
        refl

  not_stars : same_text (ip ++ b':' ∷ decimal port) (codes "*:*") ≡ false
  not_stars = elim (Bool-cases (same_text (ip ++ b':' ∷ decimal port) (codes "*:*"))) [
    | inr e ↦ e
    | inl e ↦
        let (same, digits) =
          cut_last b':' ip (codes "*") (decimal port) (codes "*") (no_colon port) (omega arith)
            ((same_text_iff (ip ++ b':' ∷ decimal port) (codes "*:*")).0 e) in
        absurd (host.no_star same)
  ]

  -- The two forms of join_host_port.
  joined_bracket :
      (r : Bytes × Bytes)
      → cut_at b':' ip ≡ some r
      → join_host_port ip port ≡ b'[' ∷ ip ++ (codes "]:" ++ decimal port)
  unfolding join_host_port
  joined_bracket r e =
      let filled : (length ip == 0) ≡ false = ground (arith, host.filled) in
      rw (filled, join_host_port, e, pid_text_port)
        (take_all 79 (b'[' ∷ ip ++ (codes "]:" ++ decimal port))
          (omega (arith, length-append ip (codes "]:" ++ decimal port), short_port, host.short)))

  joined_plain : cut_at b':' ip ≡ none → join_host_port ip port ≡ ip ++ b':' ∷ decimal port
  unfolding join_host_port
  joined_plain e =
      let filled : (length ip == 0) ≡ false = ground (arith, host.filled) in
      rw (filled, join_host_port, e, pid_text_port)
        (take_all 79 (ip ++ b':' ∷ decimal port)
          (omega (arith, length-append ip (b':' ∷ decimal port), short_port, host.short)))

  -- split_host_port reads back what join_host_port writes of a port below 2 ^ 31 and an address
  -- text of 1 up to 45 characters that holds no bracket and is not a star alone.
  pub split_host_port-join_host_port : split_host_port (join_host_port ip port) ≡ (ip, port)
  unfolding split_host_port
  split_host_port-join_host_port = elim (Option-cases (cut_at b':' ip)) [
    | inr (r, e) ↦ rw (joined_bracket r e) bracketed_lem
    | inl e ↦ rw (joined_plain e) (
        split_plain (ip ++ b':' ∷ decimal port)
          (front ip (b':' ∷ decimal port) host.filled host.plain) not_stars
        ∙ plain_end_lem)
  ]
