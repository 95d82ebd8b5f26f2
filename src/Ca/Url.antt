-- ===== src/Ca/Url.antt =====
-- url_split of c/ca.c. Both callers pass a scheme of 16 bytes, a host of 256 and a path of 1024, and
-- the last number as the room of all three. A write past one of them is a fault.
pub mod Overflow
pub mod Parts
use tracep.Base.{
  Bool, Option, [], if◌then◌else◌, length, ltb, none, some, take, ℕ, ◌++◌, ◌-◌, ◌==◌, ◌||◌, ◌∷◌,
}
use tracep.Memory.{Bytes, Outcome, fault, ok, ◌>>=◌}
use tracep.Net.Lsof.{atoi, cut_text}
use tracep.Text.{codes, same_text}
use tracep.Text.Hex.{cut_at}

pub record Url : Type 0 where
  pub scheme : Bytes
  pub host : Bytes
  pub port : ℕ
  pub path : Bytes

abbrev pub scheme_room : ℕ
scheme_room = 16

abbrev pub host_room : ℕ
host_room = 256

abbrev pub path_room : ℕ
path_room = 1024

-- `memcpy(dst, s, n); dst[n] = 0` into `room` bytes
unfoldable pub copy_text : ℕ → Bytes → Outcome Bytes
copy_text room s = if ltb (length s) room then ok s else fault

-- the path, and what stands in front of it
unfoldable pub host_and_path : Bytes → Bytes × Bytes
unfolding cut_at
host_and_path h = elim (cut_at b'/' h) [ none ↦ (h, []) | some r ↦ (r.0, b'/' ∷ r.1) ]

-- the host in front of a colon, and the port behind it
unfoldable pub host_and_port : Bytes → Bytes → ℕ → Bytes × ℕ
unfolding cut_at atoi
host_and_port h slash default = elim (cut_at b':' h) [
  | none ↦ (h, default)
  | some r ↦ (r.0, atoi (r.1 ++ slash))
]

unfoldable pub default_port : Bytes → ℕ
unfolding same_text
default_port scheme = if same_text scheme (codes "https") then 443 else 80

-- behind "://"
unfoldable pub split_rest : ℕ → Bytes → Bytes → Outcome (Option Url)
unfolding copy_text host_and_path host_and_port default_port
split_rest cap scheme h =
    let (front, slash) = host_and_path h in
    let (host, port) = host_and_port front slash (default_port scheme) in
    if ltb (length host) cap
    then (copy_text host_room host >>= λ kept. ok (
        some (record {
          scheme = scheme;
          host = kept;
          port = port;
          path = take (cap - 1) (if length slash == 0 then codes "/" else slash);
        })))
    else ok none

abbrev pub is_http : Bytes → Bool
is_http s = same_text s (codes "https") || same_text s (codes "http")

unfoldable pub url_split : ℕ → Bytes → Outcome (Option Url)
unfolding cut_text copy_text split_rest same_text
url_split cap url = elim (cut_text (codes "://") url) [
  | none ↦ ok none
  | some r ↦
      if ltb (length r.0) cap
      then (copy_text scheme_room r.0 >>= λ scheme.
          if is_http scheme then split_rest cap scheme r.1 else ok none)
      else ok none
]
