-- ===== src/Dns/Json/Reading.antt =====
-- json_escape against a reader of JSON strings.
use mathlib.Core.List.{append-nil, append_assoc}
use tracep.Base.{
  Bool-cases, Option, [], ap, arith, false, if◌then◌else◌, inl, inr, leb, length, length-append,
  ltb, ltb→lt, lt→ltb, none, refl, some, suc, sym, true, zero, ℕ, ◌%◌, ◌&&◌, ◌*◌, ◌++◌, ◌+◌, ◌-◌,
  ◌/◌, ◌<◌, ◌==◌, ◌||◌, ◌∙◌, ◌∷◌, ◌≡◌, ◌≤◌,
}
use tracep.Dns.Json.{double_quote, hex4, hex_digit, json_byte, json_escape, json_onto}
use tracep.Memory.{Bytes, cstr}

-- where the reader is in a string: behind a backslash, or with digits of \u left to read
pub data Place : Type 0 where
  in_text behind_slash : Place
  in_hex : ℕ → ℕ → Place

unfoldable pub hex_value : ℕ → Option ℕ
hex_value c =
    if leb b'0' c && leb c b'9'
    then some (c - b'0')
    else if leb b'a' c && leb c b'f'
    then some (c - b'a' + 10)
    else none

-- how one character is read: the place that follows, and what it adds to the text
pub json_step : Place → ℕ → Option (Place × Bytes)
json_step in_text c =
    if c == b'\\'
    then some (behind_slash, [])
    else if c == double_quote || ltb c 0x20
    then none
    else some (in_text, c ∷ [])
json_step behind_slash c =
    if c == b'u'
    then some (in_hex 3 0, [])
    else if c == double_quote || c == b'\\'
    then some (in_text, c ∷ [])
    else none
json_step (in_hex left acc) c = elim (hex_value c) [
  | none ↦ none
  | some v ↦ elim left [
    | zero ↦ some (in_text, (acc * 16 + v) ∷ [])
    | suc n ↦ some (in_hex n (acc * 16 + v), [])
  ]
]

abbrev join_front : Bytes → Option Bytes → Option Bytes
join_front out none = none
join_front out (some w) = some (out ++ w)

-- the text that a JSON string stands for, or none if it is no string
unfoldable pub json_text : Place → Bytes → Option Bytes
json_text in_text [] = some []
json_text _ [] = none
json_text p (c ∷ s) = elim (json_step p c) [
  | none ↦ none
  | some (p', out) ↦ join_front out (json_text p' s)
]

hex_value-hex_digit : (k : ℕ) → k < 16 → hex_value (hex_digit k) ≡ some k
unfolding hex_value hex_digit
hex_value-hex_digit k lt = ground arith

-- the text between the quotes, with no limit
unfoldable pub json_bytes : Bytes → Bytes
json_bytes [] = []
json_bytes (c ∷ s) = json_byte c ++ json_bytes s

join_front_nil : (o : Option Bytes) → join_front [] o ≡ o
join_front_nil none = refl
join_front_nil (some w) = refl

read_digit :
    (left acc k : ℕ) (rest : Bytes)
    → k < 16
    → json_text (in_hex (suc left) acc) (hex_digit k ∷ rest)
      ≡ json_text (in_hex left (acc * 16 + k)) rest
unfolding json_text json_step
read_digit left acc k rest lt =
    rw (hex_value-hex_digit k lt, json_text, json_step) (join_front_nil _)

read_last :
    (acc k : ℕ) (rest : Bytes)
    → k < 16
    → json_text (in_hex 0 acc) (hex_digit k ∷ rest)
      ≡ join_front ((acc * 16 + k) ∷ []) (json_text in_text rest)
unfolding json_text json_step
read_last acc k rest lt = rw (hex_value-hex_digit k lt, json_text, json_step) refl

read_hex4 :
    (c : ℕ) (rest : Bytes)
    → c < 0x20
    → json_text (in_hex 3 0) (hex4 c ++ rest) ≡ join_front (c ∷ []) (json_text in_text rest)
unfolding hex4
read_hex4 c rest lt =
    let a0 = c / 4096 % 16 in
    let a1 = c / 256 % 16 in
    let a2 = c / 16 % 16 in
    let a3 = c % 16 in
    let whole : (((0 * 16 + a0) * 16 + a1) * 16 + a2) * 16 + a3 ≡ c = omega arith in
    read_digit 2 0 a0 _ (omega arith)
    ∙ (read_digit 1 (0 * 16 + a0) a1 _ (omega arith)
        ∙ (read_digit 0 ((0 * 16 + a0) * 16 + a1) a2 _ (omega arith)
            ∙ (read_last (((0 * 16 + a0) * 16 + a1) * 16 + a2) a3 rest (omega arith)
                ∙ ap (λ x. join_front (x ∷ []) (json_text in_text rest)) whole)))

plain_step :
    (c : ℕ)
    → (c == double_quote || c == b'\\') ≡ false
    → ltb c 0x20 ≡ false
    → json_step in_text c ≡ some (in_text, c ∷ [])
unfolding json_step
plain_step c other printable = ground arith

read_json_byte :
    (c : ℕ) (rest : Bytes)
    → json_text in_text (json_byte c ++ rest) ≡ join_front (c ∷ []) (json_text in_text rest)
unfolding json_byte json_text
read_json_byte c rest = elim (Bool-cases (c == double_quote || c == b'\\')) [
  | inl special ↦
      rw (special, json_byte)
        (unfold json_text json_step in ground (arith, join_front_nil (json_text in_text rest)))
  | inr other ↦ elim (Bool-cases (ltb c 0x20)) [
    | inl control ↦
        rw (other, json_byte, control)
          (unfold json_text json_step in
            (join_front_nil _ ∙ (join_front_nil _ ∙ read_hex4 c rest (ltb→lt c 0x20 control))))
    | inr printable ↦
        rw (other, json_byte, printable) (rw (plain_step c other printable, json_text) refl)
  ]
]

read_json_bytes : (s : Bytes) → json_text in_text (json_bytes s) ≡ some s
unfolding json_bytes
read_json_bytes [] = unfold json_text in refl
read_json_bytes (c ∷ s) = rw (read_json_byte c (json_bytes s), read_json_bytes s) refl

json_byte_size : (c : ℕ) → (0 < length (json_byte c)) × (length (json_byte c) ≤ 6)
unfolding json_byte hex4
json_byte_size c = ground arith

json_onto_all :
    (size : ℕ) (s w : Bytes)
    → length (w ++ json_bytes s) ≤ size - 8
    → json_onto size w s ≡ w ++ json_bytes s
unfolding json_onto json_bytes
json_onto_all size [] w fits = sym (append-nil w)
json_onto_all size (c ∷ s) w fits =
    let more = length-append w (json_byte c ++ json_bytes s) in
    let one = length-append (json_byte c) (json_bytes s) in
    let go : ltb (length w) (size - 8) ≡ true =
      lt→ltb (length w) (size - 8) (omega (arith, json_byte_size c)) in
    let grouped = append_assoc w (json_byte c) (json_bytes s) in
    rw (go, json_onto) (json_onto_all size s (w ++ json_byte c) (rw grouped fits) ∙ grouped)

-- Where the escaped form leaves 8 bytes of the buffer free, a reader of JSON strings reads the
-- result of json_escape back as the text.
pub json_text-json_escape :
    (size : ℕ) (s : Bytes)
    → length (json_bytes (cstr s)) ≤ size - 8
    → json_text in_text (json_escape size s) ≡ some (cstr s)
unfolding json_escape
json_text-json_escape size s fits =
    ap (json_text in_text) (json_onto_all size (cstr s) [] fits) ∙ read_json_bytes (cstr s)

json_onto_le : (size : ℕ) (s w : Bytes) → length w < size → length (json_onto size w s) < size
unfolding json_onto
json_onto_le size [] w h = h
json_onto_le size (c ∷ s) w h = elim (Bool-cases (ltb (length w) (size - 8))) [
  | inl room ↦
      let lt = ltb→lt (length w) (size - 8) room in
      rw (room, json_onto)
        (json_onto_le size s (w ++ json_byte c)
          (omega (arith, length-append w (json_byte c), json_byte_size c)))
  | inr full ↦ rw (full, json_onto) h
]

-- Whatever the text, what json_escape writes fits a buffer that is not empty, with the NUL.
length-json_escape : (size : ℕ) (s : Bytes) → 0 < size → length (json_escape size s) < size
unfolding json_escape
length-json_escape size s h = json_onto_le size (cstr s) [] h
