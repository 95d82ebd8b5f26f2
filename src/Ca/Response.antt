-- ===== src/Ca/Response.antt =====
-- The HTTP answer as http_get_once of c/ca.c reads it: the status, the Location header and the body.
pub mod Lines
pub mod Status
pub mod Answer
use tracep.Base.{
  Option, [], drop, false, if◌then◌else◌, leb, length, ltb, none, some, suc, take, true, zero, ℕ,
  ◌&&◌, ◌++◌, ◌+◌, ◌-◌, ◌==◌, ◌||◌, ◌∷◌,
}
use tracep.Int.{int32, ℤ}
use tracep.Memory.{Bytes, cstr}
use tracep.Net.Lsof.{cut_text}
use tracep.Text.{codes, strtol}
use tracep.Tls.Events.{behind}

abbrev pub crlf : Bytes
crlf = 13 ∷ 10 ∷ []

infixl 5 ◌>>=◌
abbrev ◌>>=◌ : {A B : Type 0} → Option A → (A → Option B) → Option B
none >>= f = none
some a >>= f = f a

-- `%*d` and `%d` of sscanf
unfoldable pub scan_int : Bytes → Option (ℤ × Bytes)
unfolding strtol
scan_int s = let r = strtol s in if r.any then some (r.value, r.end) else none

-- sscanf(s, "HTTP/%*d.%*d %d", status); `%d` skips blanks, as the blank of the format does
unfoldable pub status_minor : Bytes → Option ℕ
unfolding behind int32
status_minor s = do
  major ← behind (codes "HTTP/") s
  r ← scan_int major
  minor ← behind (codes ".") r.1
  r' ← scan_int minor
  status ← scan_int r'.1
  some (int32 status.0)

-- sscanf(s, "HTTP/%*d %d", status)
unfoldable pub status_major : Bytes → Option ℕ
unfolding behind int32
status_major s = do
  major ← behind (codes "HTTP/") s
  r ← scan_int major
  status ← scan_int r.1
  some (int32 status.0)

unfoldable pub status_of : Bytes → ℕ
unfolding status_minor status_major
status_of s = elim (status_minor s) [
  | some n ↦ n
  | none ↦ elim (status_major s) [ some n ↦ n | none ↦ 0 ]
]

-- tolower in the C locale
abbrev pub lower : ℕ → ℕ
lower c = if leb b'A' c && leb c b'Z' then c + 32 else c

-- strncasecmp(s, name, strlen(name)) == 0, for a name in lower case, and what follows
unfoldable pub behind_any_case : Bytes → Bytes → Option Bytes
behind_any_case [] s = some s
behind_any_case (c ∷ name) [] = none
behind_any_case (c ∷ name) (x ∷ s) = if c == lower x then behind_any_case name s else none

unfoldable pub skip_blanks : Bytes → Bytes
skip_blanks [] = []
skip_blanks (c ∷ s) = if c == b' ' || c == 9 then skip_blanks s else c ∷ s

abbrev pub location_room : ℕ
location_room = 2048

-- what a line of the header does to `location`
unfoldable pub header_line : Bytes → Bytes → Bytes
unfolding behind_any_case skip_blanks
header_line line location = elim (behind_any_case (codes "location:") line) [
  | none ↦ location
  | some v ↦ take (location_room - 1) (skip_blanks v)
]

-- The loop from the text `l`, which has `left` characters in front of the end of the header.
unfoldable pub header_lines : ℕ → ℕ → Bytes → Bytes → Bytes
unfolding cut_text header_line
header_lines zero left l location = location
header_lines (suc rounds) left l location = if left == 0 then location else elim (cut_text crlf l) [
  | none ↦ location
  | some (line, rest) ↦ elim (ltb left (length line)) [
    | true ↦ location
    | false ↦ header_lines rounds (left - (length line + 2)) rest (header_line line location)
  ]
]

pub record Response : Type 0 where
  pub status : ℕ
  pub location : Bytes
  pub body : Bytes

-- what was read, up to an error or the end; `none` is an answer that is empty or has no header
unfoldable pub parse_response : Bytes → Option Response
unfolding cut_text cstr status_of header_lines
parse_response raw = if length raw == 0 then none else elim (cut_text (crlf ++ crlf) (cstr raw)) [
  | none ↦ none
  | some r ↦ some (record {
    status = status_of (cstr raw);
    location = header_lines (length r.0 + 1) (length r.0) (cstr raw) [];
    body = drop (length r.0 + 4) raw;
  })
]
