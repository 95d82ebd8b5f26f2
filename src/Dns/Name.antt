-- ===== src/Dns/Name.antt =====
-- read_name of c/dns.c: a domain name in wire format, with compression pointers. The loop `for
-- (;;)` has no bound of its own, so it gets a number of rounds, one more than the message has
-- bytes. `orig` is none for the -1 of the source, `dst` is none for NULL.
pub mod Safety
pub mod Rounds
pub mod RoundTrip
pub mod Circle
pub mod Forward
use tracep.Base.{
  ℕ, zero, suc, ◌+◌, ◌-◌, ◌/◌, ◌%◌, ◌^◌, true, false, ◌&&◌, Option, none, some, [], ◌∷◌, ◌++◌, ltb,
  leb, ◌==◌, if◌then◌else◌, length,
}
use tracep.Memory.{Bytes, Outcome, ok, fault, spin, ◌>>=◌, load, be16}

-- what one round of the loop finds at its offset
pub data Hop : Type 0 where
  bad : Hop
  finish : Hop
  jump : ℕ → Hop
  label : ℕ → Hop

-- `(l & 0xC0) == 0xC0`, and `(l & 0xC0) == 0`, as the two top bits of the byte
abbrev pub top_bits : ℕ → ℕ
top_bits l = l / 64 % 4

-- the tests of one round
pub hop : Bytes → ℕ → ℕ → Outcome Hop
unfolding load be16
hop d len off = if leb len off then ok bad else do
  l ← load d off
  if l == 0
      then ok finish
      else if top_bits l == 3
      then (if ltb len (off + 2) then ok bad else do t ← be16 d off; ok (jump (t % 2 ^ 14)))
      else if top_bits l == 0
      then (if ltb len (off + 1 + l) then ok bad else ok (label l))
      else ok bad

-- `for (i = 0; i < l && w < dstcap - 1; i++) dst[w++] = d[off + i]`
pub copy : ℕ → Bytes → ℕ → ℕ → Bytes → Outcome Bytes
unfolding load
copy zero d off size w = ok w
copy (suc n) d off size w = elim (ltb (length w) (size - 1)) [
  | true ↦ load d off >>= λ b. copy n d (off + 1) size (w ++ b ∷ [])
  | false ↦ ok w
]

-- `if (w && w < dstcap - 1) dst[w++] = '.'`
pub dotted : ℕ → Bytes → Bytes
dotted size w = if ltb 0 (length w) && ltb (length w) (size - 1) then w ++ b'.' ∷ [] else w

-- the label of `l` bytes at `off`, appended to what is written
pub put_label : Bytes → ℕ → ℕ → ℕ → Option Bytes → Outcome (Option Bytes)
put_label d size off l none = ok none
put_label d size off l (some w) = do r ← copy l d off size (dotted size w); ok (some r)

-- `if (orig == -1) orig = off + 2`
abbrev pub first_jump : Option ℕ → ℕ → Option ℕ
first_jump none after = some after
first_jump (some o) after = some o

-- `off++; if (orig != -1) off = orig; return off`
abbrev pub end_offset : Option ℕ → ℕ → ℕ
end_offset none off = off + 1
end_offset (some o) off = o

-- The returned offset and the bytes of `dst`; none inside for the return of -1.
abbrev pub Read : Type 0
Read = Option (ℕ × Option Bytes)

pub read_loop : ℕ → Bytes → ℕ → ℕ → ℕ → Option ℕ → Option Bytes → Outcome Read
read_loop zero d len size off orig dst = spin
read_loop (suc rounds) d len size off orig dst = hop d len off >>= λ h. elim h [
  | bad ↦ ok none
  | finish ↦ ok (some (end_offset orig off, dst))
  | jump t ↦ read_loop rounds d len size t (first_jump orig (off + 2)) dst
  | label l ↦ put_label d size (off + 1) l dst >>= λ dst'.
      read_loop rounds d len size (off + 1 + l) orig dst'
]

unfoldable pub read_name : Bytes → ℕ → ℕ → ℕ → Option Bytes → Outcome Read
unfolding read_loop hop put_label copy dotted
read_name d len size off dst = read_loop (len + 1) d len size off none dst
