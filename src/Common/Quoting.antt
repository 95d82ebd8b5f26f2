-- ===== src/Common/Quoting.antt =====
-- shquote against a shell that reads its result back as one word. The reader knows quotes of the
-- form '…' and $'…', the backslash, and the characters that stand for more than themselves.
use mathlib.Core.List.{append-nil, append_assoc}
use tracep.Base.{
  Bool-cases, Option, Option-cases, [], ap, arith, if◌then◌else◌, inl, inr, length, length-append,
  length-take, ltb, lt→ltb, none, refl, some, sym, take_all, true, ℕ, ◌++◌, ◌-◌, ◌<◌, ◌==◌, ◌∙◌,
  ◌∷◌, ◌≡◌, ◌≢◌, ◌≤◌,
}
use tracep.Common.{all_safe, close_quote, mem_byte, pool_sz, quote_byte, quote_onto, quoted}
use tracep.Memory.{Bytes}
use tracep.Text.{codes}

pub data Mode : Type 0 where
  word_start in_plain in_single in_escape after_dollar in_ansi in_ansi_escape : Mode

-- White space, operators, expansions and patterns: outside quotes they are no part of a literal word.
abbrev special : Bytes
special = codes " \t\n|&;<>()`\"*?[]#={}^"

-- how a shell reads one character: the mode that follows, and what the character adds to the word
step : Mode → ℕ → Option (Mode × Bytes)
unfolding mem_byte
step word_start c =
    if c == b'~'
    then none
    else if c == b'\''
    then some (in_single, [])
    else if c == b'\\'
    then some (in_escape, [])
    else if c == b'$'
    then some (after_dollar, [])
    else if mem_byte c special
    then none
    else some (in_plain, c ∷ [])
step in_plain c =
    if c == b'\''
    then some (in_single, [])
    else if c == b'\\'
    then some (in_escape, [])
    else if c == b'$'
    then some (after_dollar, [])
    else if mem_byte c special
    then none
    else some (in_plain, c ∷ [])
step in_single c = if c == b'\'' then some (in_plain, []) else some (in_single, c ∷ [])
step in_escape c = if c == b'\n' then none else some (in_plain, c ∷ [])
step after_dollar c = if c == b'\'' then some (in_ansi, []) else none
step in_ansi c =
    if c == b'\''
    then some (in_plain, [])
    else if c == b'\\'
    then some (in_ansi_escape, [])
    else some (in_ansi, c ∷ [])
step in_ansi_escape c = if c == b'n' then some (in_ansi, b'\n' ∷ []) else none

abbrev put_front : Bytes → Option Bytes → Option Bytes
put_front out none = none
put_front out (some w) = some (out ++ w)

-- The word that the shell makes of the text, or none if the text is not one literal word.
unfoldable pub shell_word : Mode → Bytes → Option Bytes
unfolding step
shell_word in_plain [] = some []
shell_word _ [] = none
shell_word m (c ∷ s) = elim (step m c) [
  | none ↦ none
  | some (m', out) ↦ put_front out (shell_word m' s)
]

shell_word_safe : (s : Bytes) → all_safe s ≡ true → shell_word in_plain s ≡ some s
unfolding shell_word all_safe mem_byte
shell_word_safe [] h = refl
shell_word_safe (c ∷ s) h = ground (arith, shell_word_safe s)

-- the text between the quotes, with no limit
unfoldable pub quoted_bytes : Bytes → Bytes
quoted_bytes [] = []
quoted_bytes (c ∷ s) = quote_byte c ++ quoted_bytes s

read_quote_byte :
    (c : ℕ) (rest : Bytes)
    → shell_word in_single (quote_byte c ++ rest) ≡ put_front (c ∷ []) (shell_word in_single rest)
unfolding shell_word quote_byte
read_quote_byte c rest = elim (Option-cases (shell_word in_single rest)) [
  | inl e ↦ ground arith
  | inr (w, e) ↦ ground arith
]

read_quoted : (s : Bytes) → shell_word in_single (quoted_bytes s ++ b'\'' ∷ []) ≡ some s
unfolding quoted_bytes
read_quoted [] = unfold shell_word in refl
read_quoted (c ∷ s) = rw (
  append_assoc (quote_byte c) (quoted_bytes s) (b'\'' ∷ []),
  read_quote_byte c (quoted_bytes s ++ b'\'' ∷ []),
  read_quoted s,
)

quote_byte_pos : (c : ℕ) → 0 < length (quote_byte c)
unfolding quote_byte
quote_byte_pos c = ground arith

quote_onto_all :
    (s b : Bytes)
    → length (b ++ quoted_bytes s) ≤ pool_sz - 8
    → quote_onto b s ≡ b ++ quoted_bytes s
unfolding quote_onto quoted_bytes
quote_onto_all [] b fits = sym (append-nil b)
quote_onto_all (c ∷ s) b fits =
    let more = length-append b (quote_byte c ++ quoted_bytes s) in
    let one = length-append (quote_byte c) (quoted_bytes s) in
    let go : ltb (length b) (pool_sz - 8) ≡ true =
      lt→ltb (length b) (pool_sz - 8) (omega (arith, quote_byte_pos c)) in
    let grouped = append_assoc b (quote_byte c) (quoted_bytes s) in
    rw (go, quote_onto) (quote_onto_all s (b ++ quote_byte c) (rw grouped fits) ∙ grouped)

length-le-quoted_bytes : (s : Bytes) → length s ≤ length (quoted_bytes s)
unfolding quoted_bytes
length-le-quoted_bytes [] = omega arith
length-le-quoted_bytes (c ∷ s) = omega (
  arith,
  length-le-quoted_bytes s,
  length-append (quote_byte c) (quoted_bytes s),
  quote_byte_pos c,
)

read_start :
    (c : ℕ) (s : Bytes) → c ≢ b'~' → shell_word word_start (c ∷ s) ≡ shell_word in_plain (c ∷ s)
unfolding shell_word
read_start c s h = ground arith

read_closed :
    (q : Bytes)
    → length (b'\'' ∷ q) < pool_sz - 1
    → shell_word word_start (close_quote (b'\'' ∷ q))
      ≡ put_front [] (shell_word in_single (q ++ b'\'' ∷ []))
unfolding shell_word close_quote
read_closed q h = rw (lt→ltb (length (b'\'' ∷ q)) (pool_sz - 1) h)

-- the first byte of a text, 0 for none
abbrev pub head_byte : Bytes → ℕ
head_byte [] = 0
head_byte (c ∷ s) = c

-- Where the quoted form has less than 1016 bytes between its quotes, and the text does not begin
-- with a tilde, a shell reads the result of shquote back as the text that was quoted.
pub shell_word-quoted :
    (s : Bytes)
    → length (quoted_bytes s) < pool_sz - 8
    → head_byte s ≢ b'~'
    → shell_word word_start (quoted s) ≡ some s
unfolding quoted
shell_word-quoted [] fits no_tilde = unfold shell_word in refl
shell_word-quoted (c ∷ s) fits no_tilde = elim (Bool-cases (all_safe (c ∷ s))) [
  | inl safe ↦
      let short = length-le-quoted_bytes (c ∷ s) in
      rw (safe, quoted, take_all (pool_sz - 1) (c ∷ s) (omega arith))
        (read_start c s no_tilde ∙ shell_word_safe (c ∷ s) safe)
  | inr unsafe ↦
      rw (unsafe, quoted, quote_onto_all (c ∷ s) (b'\'' ∷ []) (omega arith))
        (read_closed (quoted_bytes (c ∷ s)) (omega arith) ∙ ap (put_front []) (read_quoted (c ∷ s)))
]

quote_byte_le : (c : ℕ) → length (quote_byte c) ≤ 7
unfolding quote_byte
quote_byte_le c = ground arith

quote_onto_le : (s b : Bytes) → length b < pool_sz - 1 → length (quote_onto b s) < pool_sz - 1
unfolding quote_onto
quote_onto_le [] b h = h
quote_onto_le (c ∷ s) b h =
    ground
      (arith, quote_byte_le c, length-append b (quote_byte c), quote_onto_le s (b ++ quote_byte c))

length-close_quote : (b : Bytes) → length b < pool_sz - 1 → length (close_quote b) < pool_sz
unfolding close_quote
length-close_quote b h = ground (arith, length-append b (b'\'' ∷ []))

-- Whatever the text, what shquote makes of it fits its slot of 1024 bytes with the NUL.
length-quoted : (s : Bytes) → length (quoted s) < pool_sz
unfolding quoted
length-quoted [] = omega arith
length-quoted (c ∷ s) = elim (Bool-cases (all_safe (c ∷ s))) [
  | inl safe ↦ rw (safe, quoted) (omega (arith, length-take (pool_sz - 1) (c ∷ s)))
  | inr unsafe ↦
      rw (unsafe, quoted)
        (length-close_quote (quote_onto (b'\'' ∷ []) (c ∷ s))
          (quote_onto_le (c ∷ s) (b'\'' ∷ []) (omega arith)))
]
