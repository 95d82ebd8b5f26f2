-- ===== src/Dns/Name/Safety.antt =====
-- read_name of c/dns.c: what it reads and writes, against the sizes of its buffers.
use tracep.Base.{
  Option, [], arith, get_elem?_within, length, length-append, none, some, suc, zero, ℕ, ◌++◌, ◌+◌,
  ◌-◌, ◌<◌, ◌∷◌, ◌≤◌,
}
use tracep.Dns.Name.{
  Hop, Read, bad, copy, dotted, finish, first_jump, hop, jump, label, put_label, read_loop,
  read_name,
}
use tracep.Memory.{Bytes, Returns, Safe, Within-bind, Within-of_Returns}

-- The length that the buffer behind `dst` has, with the NUL, at most `size`.
abbrev pub Fits : ℕ → Option Bytes → Type 0
Fits size none = Unit
Fits size (some w) = length w ≤ size - 1

abbrev pub HopWithin : ℕ → ℕ → Hop → Type 0
HopWithin len off bad = Unit
HopWithin len off finish = off < len
HopWithin len off (jump t) = off + 2 ≤ len
HopWithin len off (label l) = off + 1 + l ≤ len

pub hop_within :
    (d : Bytes) (len off : ℕ) → len ≤ length d → Safe (HopWithin len off) (hop d len off)
unfolding hop
hop_within d len off h = ground (arith, get_elem?_within d off, get_elem?_within d (off + 1))

-- The bytes that a label leaves in `dst`.
copy_within :
    (l : ℕ) (d : Bytes) (off size : ℕ) (w : Bytes)
    → off + l ≤ length d
    → length w ≤ size - 1
    → Returns (λ r. length r ≤ size - 1) (copy l d off size w)
unfolding copy
copy_within zero d off size w h fits = fits
copy_within (suc l) d off size w h fits =
    let (b, e) = get_elem?_within d off (omega arith) in
    ground (
      arith,
      e,
      length-append w (b ∷ []),
      copy_within l d (off + 1) size (w ++ b ∷ []) (omega arith),
    )

length-dotted : (size : ℕ) (w : Bytes) → length w ≤ size - 1 → length (dotted size w) ≤ size - 1
unfolding dotted
length-dotted size w h = ground (arith, length-append w (b'.' ∷ []))

pub put_label_within :
    (d : Bytes) (size off l : ℕ) (dst : Option Bytes)
    → off + l ≤ length d
    → Fits size dst
    → Returns (Fits size) (put_label d size off l dst)
unfolding put_label
put_label_within d size off l none h fits = tt
put_label_within d size off l (some w) h fits =
    Within-bind ⊥ (λ r. length r ≤ size - 1) (Fits size) (copy l d off size (dotted size w)) _
      (copy_within l d off size (dotted size w) h (length-dotted size w fits)) (λ r p. p)

-- What the loop knows of `orig` when the name began at `start`.
abbrev Began : ℕ → ℕ → ℕ → Option ℕ → Type 0
Began start len off none = start ≤ off
Began start len off (some o) = (start < o) × (o ≤ len)

-- A name that is read ends behind its start and not behind the message, and fits in `dst`.
abbrev pub ReadWithin : ℕ → ℕ → ℕ → Read → Type 0
ReadWithin start len size none = Unit
ReadWithin start len size (some (next, dst)) = (start < next) × (next ≤ len) × Fits size dst

module _ (d : Bytes) (len size start : ℕ) (inside : len ≤ length d) where
  pub read_loop_within :
      (rounds off : ℕ) (orig : Option ℕ) (dst : Option Bytes)
      → Began start len off orig
      → Fits size dst
      → Safe (ReadWithin start len size) (read_loop rounds d len size off orig dst)
  unfolding read_loop
  read_loop_within zero off orig dst began fits = tt
  read_loop_within (suc rounds) off orig dst began fits =
      Within-bind Unit (HopWithin len off) (ReadWithin start len size) (hop d len off) _
        (hop_within d len off inside)
        (elim [
          | bad ↦ λ p. tt
          | finish ↦ λ p. ground arith
          | jump t ↦
              λ p. read_loop_within rounds t (first_jump orig (off + 2)) dst (ground arith) fits
          | label l ↦ λ p.
              Within-bind Unit (Fits size) (ReadWithin start len size)
                (put_label d size (off + 1) l dst) _
                (Within-of_Returns Unit (Fits size) _
                  (put_label_within d size (off + 1) l dst (omega arith) fits))
                (λ dst' fits'. read_loop_within rounds (off + 1 + l) orig dst' (ground arith) fits')
        ])

-- Where the buffer has at least `len` bytes and what is in `dst` leaves room for its NUL, read_name
-- never reads outside the buffer; a name that it reads ends behind its start and inside the
-- message, and fits into `dst` with its NUL.
pub read_name_within :
    (d : Bytes) (len size off : ℕ) (dst : Option Bytes)
    → len ≤ length d
    → Fits size dst
    → Safe (ReadWithin off len size) (read_name d len size off dst)
unfolding read_name
read_name_within d len size off dst inside fits =
    read_loop_within d len size off inside (len + 1) off none dst (omega arith) fits
