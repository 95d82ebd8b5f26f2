-- ===== src/Net/Lsof.antt =====
-- The ends of a connection as c/net.c reads and writes them on macOS: split_conn, split_host_port and
-- join_host_port. An int is the bit pattern of its 32 bits. A text of a line is cut to 63 characters.
pub mod Scan
pub mod Ends
use mathlib.Core.Option
use tracep.Base.{
  Bool, Option, [], false, if◌then◌else◌, length, none, some, take, ℕ, ◌++◌, ◌==◌, ◌∷◌,
}
use tracep.Exec.Line.{pid_text}
use tracep.Int.{int32}
use tracep.Memory.{Bytes}
use tracep.Text.{codes, same_text, strtol}
use tracep.Text.Hex.{cut_at}
use tracep.Tls.Events.{behind}

-- atoi
unfoldable pub atoi : Bytes → ℕ
unfolding strtol int32
atoi s = int32 (strtol s).value

-- strstr(s, t): what stands in front of the first `t`, and behind it
unfoldable pub cut_text : Bytes → Bytes → Option (Bytes × Bytes)
unfolding behind
cut_text t [] = Option.map (λ rest. ([], rest)) (behind t [])
cut_text t (c ∷ s) = elim (behind t (c ∷ s)) [
  | none ↦ Option.map (λ r. (c ∷ r.0, r.1)) (cut_text t s)
  | some rest ↦ some ([], rest)
]

-- strrchr(s, c)
unfoldable pub cut_last_at : ℕ → Bytes → Option (Bytes × Bytes)
cut_last_at c [] = none
cut_last_at c (x ∷ s) = elim (cut_last_at c s) [
  | some r ↦ some (x ∷ r.0, r.1)
  | none ↦ if x == c then some ([], s) else none
]

-- `src->dst`, or `src` with an empty `dst`
unfoldable pub split_conn : Bytes → Bytes × Bytes
unfolding cut_text
split_conn body = elim (cut_text (codes "->") body) [
  | some r ↦ (take 63 r.0, take 63 r.1)
  | none ↦ (take 63 body, [])
]

-- the case of a bracket, behind it
unfoldable pub bracketed : Bytes → Bytes × ℕ
unfolding cut_text atoi
bracketed s = elim (cut_text (codes "]:") s) [ none ↦ ([], 0) | some r ↦ (take 63 r.0, atoi r.1) ]

abbrev pub begins_with_star : Bytes → Bool
begins_with_star [] = false
begins_with_star (c ∷ s) = c == b'*'

unfoldable pub plain_end : Bytes → Bytes × ℕ
unfolding cut_last_at atoi same_text
plain_end s = elim (cut_last_at b':' s) [
  | none ↦ (take 63 s, 0)
  | some r ↦ (
    if same_text (take 63 r.0) (codes "*") then [] else take 63 r.0,
    if begins_with_star r.1 then 0 else atoi r.1,
  )
]

unfoldable pub split_host_port : Bytes → Bytes × ℕ
unfolding bracketed plain_end same_text
split_host_port [] = ([], 0)
split_host_port (c ∷ s) =
    if same_text (c ∷ s) (codes "*:*")
    then ([], 0)
    else if c == b'['
    then bracketed s
    else plain_end (c ∷ s)

-- into 80 bytes
unfoldable pub join_host_port : Bytes → ℕ → Bytes
unfolding cut_at pid_text
join_host_port ip port = take 79 (
    if length ip == 0 then codes "*:" ++ pid_text port else elim (cut_at b':' ip) [
      | some r ↦ b'[' ∷ ip ++ (codes "]:" ++ pid_text port)
      | none ↦ ip ++ b':' ∷ pid_text port
    ])
