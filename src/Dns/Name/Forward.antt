-- ===== src/Dns/Name/Forward.antt =====
-- read_name of c/dns.c on messages with no compression pointer.
use tracep.Base.{
  All, Bool-cases, Option, [], arith, get_elem?, get_elem?_within, inl, inr, leb, length, none,
  some, suc, zero, ℕ, ◌+◌, ◌<◌, ◌∷◌, ◌≡◌, ◌≢◌, ◌≤◌,
}
use tracep.Dns.Name.{Hop, bad, finish, hop, jump, label, put_label, read_loop, read_name, top_bits}
use tracep.Dns.Name.Safety.{Fits, put_label_within}
use tracep.Memory.{Bytes, Returns, Within-bind}

-- No byte has both top bits set, so none begins a pointer.
abbrev pub HasNoPointer : Bytes → Type 0
HasNoPointer = All (λ b. top_bits b ≢ 3)

byte_of_HasNoPointer :
    (d : Bytes) (i b : ℕ) → HasNoPointer d → get_elem? d i ≡ some b → top_bits b ≢ 3
byte_of_HasNoPointer [] i b h e = cc
byte_of_HasNoPointer (x ∷ d) zero b h e = let same : x ≡ b = cc in rw same at h.0
byte_of_HasNoPointer (x ∷ d) (suc i) b h e = byte_of_HasNoPointer d i b h.1 e

abbrev Forward : ℕ → ℕ → Hop → Type 0
Forward len off (jump t) = ⊥
Forward len off (label l) = off + 1 + l ≤ len
Forward len off _ = Unit

hop-Forward :
    (d : Bytes) (len off : ℕ)
    → len ≤ length d
    → HasNoPointer d
    → Returns (Forward len off) (hop d len off)
unfolding hop
hop-Forward d len off inside h = elim (Bool-cases (leb len off)) [
  | inl past ↦ rw past tt
  | inr more ↦
      let (b, e) = get_elem?_within d off (ground arith) in
      ground (arith, e, byte_of_HasNoPointer d off b h e)
]

module _ (d : Bytes) (len size : ℕ) (inside : len ≤ length d) (no_jump : HasNoPointer d) where
  read_loop_forward :
      (rounds off : ℕ) (orig : Option ℕ) (dst : Option Bytes)
      → len < rounds + off
      → 0 < rounds
      → Fits size dst
      → Returns (λ _. Unit {0}) (read_loop rounds d len size off orig dst)
  unfolding read_loop
  read_loop_forward zero off orig dst enough pos fits = elim pos [ ]
  read_loop_forward (suc rounds) off orig dst enough pos fits =
      Within-bind ⊥ (Forward len off) (λ _. Unit {0}) (hop d len off) _
        (hop-Forward d len off inside no_jump)
        (elim [
          | bad ↦ λ f. tt
          | finish ↦ λ f. tt
          | jump t ↦ λ f. elim f [ ]
          | label l ↦ λ f.
              Within-bind ⊥ (Fits size) (λ _. Unit {0}) (put_label d size (off + 1) l dst) _
                (put_label_within d size (off + 1) l dst (omega arith) fits)
                (λ dst' fits'.
                  read_loop_forward rounds (off + 1 + l) orig dst' (omega arith) (omega arith)
                    fits')
        ])

  -- In a message whose bytes never have both top bits set, read_name ends from any offset.
  pub read_name_forward :
      (off : ℕ) (dst : Option Bytes)
      → Fits size dst
      → Returns (λ _. Unit {0}) (read_name d len size off dst)
  unfolding read_name
  read_name_forward off dst fits =
      read_loop_forward (len + 1) off none dst (omega arith) (omega arith) fits
