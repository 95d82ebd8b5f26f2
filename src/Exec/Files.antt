-- ===== src/Exec/Files.antt =====
-- What c/exec.c makes of the files of a process in /proc. The content of a file is none if it cannot
-- be read. readCmdline and readEnviron are the same code over two files.
pub mod Args
use tracep.Base.{
  Bool, List, Option, [], false, if◌then◌else◌, leb, length, ltb, none, not, some, suc, true, zero,
  ℕ, ◌++◌, ◌==◌, ◌^◌, ◌||◌, ◌∷◌,
}
use tracep.Int.{neg, negsuc, pos, ℤ}
use tracep.Memory.{Bytes, cstr}
use tracep.Text.{codes, is_space, skip_spaces, strtol}

-- `while (len > 0 && data[len - 1] == c) len--`
unfoldable pub trim_right : ℕ → Bytes → Bytes
trim_right c [] = []
trim_right c (x ∷ s) = elim (trim_right c s) [
  | [] ↦ if x == c then [] else x ∷ []
  | y ∷ r ↦ x ∷ y ∷ r
]

-- the loop over the bytes, with the piece that it is in
unfoldable pub split_nul : Bytes → Bytes → List Bytes
split_nul piece [] = piece ∷ []
split_nul piece (c ∷ s) = elim (c == 0) [
  | true ↦ piece ∷ split_nul [] s
  | false ↦ split_nul (piece ++ c ∷ []) s
]

pub split_trimmed : Bytes → List Bytes
unfolding split_nul
split_trimmed [] = []
split_trimmed (c ∷ s) = split_nul [] (c ∷ s)

-- readCmdline and readEnviron
unfoldable pub read_args : Option Bytes → List Bytes
unfolding trim_right split_trimmed
read_args none = []
read_args (some data_bytes) = split_trimmed (trim_right 0 data_bytes)

unfoldable pub read_comm : Option Bytes → Bytes
unfolding trim_right cstr
read_comm none = []
read_comm (some data_bytes) = cstr (trim_right b'\n' data_bytes)

-- the loop that looks for the last slash, with `base`
unfoldable pub after_slash : Bytes → Bytes → Bytes
after_slash base [] = base
after_slash base (c ∷ s) = elim (c == b'/') [ true ↦ after_slash s s | false ↦ after_slash base s ]

pub base_name : Bytes → Bytes
unfolding after_slash
base_name a0 = elim (after_slash a0 a0) [
  | [] ↦ elim a0 [ [] ↦ codes "." | c ∷ s ↦ codes "/" ]
  | c ∷ base ↦ c ∷ base
]

-- readFirstArg
unfoldable pub first_arg : Option Bytes → Option Bytes → Bytes
unfolding read_args read_comm base_name
first_arg cmdline comm = elim (read_args cmdline) [ [] ↦ read_comm comm | a0 ∷ more ↦ base_name a0 ]

-- the bytes behind the last `c`
unfoldable pub after_last : ℕ → Bytes → Option Bytes
after_last c [] = none
after_last c (x ∷ s) = elim (after_last c s) [
  | some r ↦ some r
  | none ↦ if x == c then some s else none
]

-- the bytes in front of the next white space, and those from it on
unfoldable pub take_field : Bytes → Bytes × Bytes
take_field [] = ([], [])
take_field (c ∷ s) =
    let (f, rest) = take_field s in if is_space c then ([], c ∷ s) else (c ∷ f, rest)

-- The loop over the fields, to the one with the number; none where it is left with `p >= len`.
unfoldable pub nth_field : ℕ → Bytes → Option Bytes
unfolding skip_spaces take_field
nth_field zero s = elim (skip_spaces s) [ [] ↦ none | c ∷ r ↦ some (take_field (c ∷ r)).0 ]
nth_field (suc n) s = elim (skip_spaces s) [
  | [] ↦ none
  | c ∷ r ↦ nth_field n (take_field (c ∷ r)).1
]

-- the tests behind strtol; the value is an int32_t
abbrev pub in_int32 : ℤ → Bool
in_int32 (pos n) = ltb n (2 ^ 31)
in_int32 (negsuc n) = ltb n (2 ^ 31)

unfoldable pub parse_ppid : Bytes → ℤ
unfolding strtol cstr
parse_ppid field =
    let r = strtol (cstr field) in
    if leb 32 (length field)
    then neg 1
    else if not r.any || not (length r.end == 0) || r.erange || not (in_int32 r.value)
    then neg 1
    else r.value

-- statPPID
unfoldable pub stat_ppid : Option Bytes → ℤ
unfolding after_last nth_field parse_ppid
stat_ppid none = neg 1
stat_ppid (some data_bytes) = elim (after_last b')' data_bytes) [
  | none ↦ neg 1
  | some rest ↦ elim (nth_field 1 rest) [ none ↦ neg 1 | some f ↦ parse_ppid f ]
]
