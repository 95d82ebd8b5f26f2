-- ===== src/Net/Owner.antt =====
-- The socket tables of /proc/net in c/net.c: parse_hex_ipv4, parse_hex_ipv6, parse_hex_port, ips_eq,
-- read_proc_net_file and find_inode_with_dir. A file is its content, or none if it cannot be opened.
pub mod Digits
pub mod Search
use mathlib.Core.Option
use tracep.Base.{
  Bool, List, Option, [], drop, get_elem?, if◌then◌else◌, length, none, not, some, suc, take, zero,
  ℕ, ◌%◌, ◌&&◌, ◌++◌, ◌/◌, ◌==◌, ◌^◌, ◌∷◌,
}
use tracep.Dns.Packet.{udp}
use tracep.Memory.{Bytes, cstr}
use tracep.Net.Attrs.{ConnTuple}
use tracep.Text.{same_text}
use tracep.Text.Hex.{cut_at, fields_of, lines_from, strtoul16, strtoull}

-- proc_entry; an address is its 4 or 16 bytes
pub record ProcEntry : Type 0 where
  pub local_ip : Bytes
  pub local_port : ℕ
  pub remote_ip : Bytes
  pub remote_port : ℕ
  pub inode : ℕ

-- the bytes of a number, the lowest first
abbrev pub word_bytes : ℕ → Bytes
word_bytes v = v % 256 ∷ v / 256 % 256 ∷ v / 2 ^ 16 % 256 ∷ v / 2 ^ 24 % 256 ∷ []

-- strtoul of a word, and the test of `*e`
unfoldable pub hex_word_value : Bytes → Option Bytes
unfolding strtoul16
hex_word_value s =
    let (v, rest) = strtoul16 s in if length rest == 0 then some (word_bytes v) else none

unfoldable pub parse_hex_ipv4 : Bytes → Option Bytes
unfolding hex_word_value
parse_hex_ipv4 s = if length s == 8 then hex_word_value s else none

-- the loop over the words that are left
unfoldable pub hex_words : ℕ → Bytes → Option Bytes
unfolding hex_word_value
hex_words zero s = some []
hex_words (suc n) s = elim (hex_word_value (take 8 s)) [
  | none ↦ none
  | some w ↦ elim (hex_words n (drop 8 s)) [ none ↦ none | some ip ↦ some (w ++ ip) ]
]

unfoldable pub parse_hex_ipv6 : Bytes → Option Bytes
unfolding hex_words
parse_hex_ipv6 s = if length s == 32 then hex_words 4 s else none

unfoldable pub parse_hex_port : Bytes → ℕ
unfolding strtoul16
parse_hex_port s = (strtoul16 s).0 % 2 ^ 16

-- an address that is 8 or 32 digits, as the length of the local one says
unfoldable pub parse_ip : ℕ → Bytes → Option Bytes
unfolding parse_hex_ipv4 parse_hex_ipv6
parse_ip hl s = if hl == 8 then parse_hex_ipv4 s else if hl == 32 then parse_hex_ipv6 s else none

-- the first test that fails ends the line
infixl 5 ◌>>=◌
abbrev ◌>>=◌ : {A B : Type 0} → Option A → (A → Option B) → Option B
none >>= f = none
some a >>= f = f a

-- the two ends and the inode of a line
unfoldable pub read_ends : Bytes → Bytes → Bytes → Option ProcEntry
unfolding cut_at parse_ip parse_hex_port strtoull
read_ends local remote inode = do
  (la, lp) ← cut_at b':' local
  (ra, rp) ← cut_at b':' remote
  local_ip ← parse_ip (length la) la
  remote_ip ← parse_ip (length la) ra
  some (record {
    local_ip = local_ip;
    local_port = parse_hex_port lp;
    remote_ip = remote_ip;
    remote_port = parse_hex_port rp;
    inode = strtoull inode;
  })

-- a line that is not the header: its fields 1, 2 and 9
unfoldable pub read_entry : Bytes → Option ProcEntry
unfolding read_ends fields_of cstr
read_entry line = do
  let fields = fields_of (cstr line)
  local ← get_elem? fields 1
  remote ← get_elem? fields 2
  inode ← get_elem? fields 9
  read_ends local remote inode

-- the lines that give an entry
unfoldable pub read_entries : List Bytes → List ProcEntry
unfolding read_entry
read_entries [] = []
read_entries (line ∷ lines) = elim (read_entry line) [
  | none ↦ read_entries lines
  | some e ↦ e ∷ read_entries lines
]

-- `sizeof line - 1`, and MAX_PROC_ENTRIES
abbrev pub line_room : ℕ
line_room = 1023

abbrev pub max_proc_entries : ℕ
max_proc_entries = 65536

unfoldable pub read_proc_net_file : Option Bytes → List ProcEntry
unfolding read_entries lines_from
read_proc_net_file none = []
read_proc_net_file (some content) =
    take max_proc_entries (read_entries (drop 1 (lines_from line_room line_room [] content)))

pub data Direction : Type 0 where
  unknown : Direction
  outbound : Direction
  inbound : Direction

-- The entry is of the end `ip`, `port`, and of the peer.
unfoldable pub is_local_end : ProcEntry → Bytes → ℕ → Bool
is_local_end e ip port = same_text e.local_ip ip && e.local_port == port

unfoldable pub is_between : ProcEntry → Bytes → ℕ → Bytes → ℕ → Bool
is_between e ip port peer peer_port =
    is_local_end e ip port && (same_text e.remote_ip peer && e.remote_port == peer_port)

-- what the first loop makes of an entry, and the second
unfoldable pub matched : ConnTuple → ProcEntry → Option Direction
matched o e =
    if e.inode == 0
    then none
    else if is_between e o.src_ip o.src_port o.dst_ip o.dst_port
    then some outbound
    else if is_between e o.dst_ip o.dst_port o.src_ip o.src_port
    then some inbound
    else none

unfoldable pub matched_local : ConnTuple → ProcEntry → Option Direction
matched_local o e =
    if not (e.inode == 0) && is_local_end e o.src_ip o.src_port then some outbound else none

-- the loop over the entries, with either test
unfoldable pub first_match :
    (ProcEntry → Option Direction) → List ProcEntry → Option (ℕ × Direction)
first_match test [] = none
first_match test (e ∷ es) = elim (test e) [
  | some dir ↦ some (e.inode, dir)
  | none ↦ first_match test es
]

-- one file: the exact match, then that of a UDP socket with no peer
unfoldable pub match_file : ConnTuple → List ProcEntry → Option (ℕ × Direction)
unfolding first_match
match_file o es = elim (first_match (matched o) es) [
  | some r ↦ some r
  | none ↦ if o.proto == 17 then first_match (matched_local o) es else none
]

-- the files tcp, tcp6, udp and udp6 of /proc/net
pub record SocketFiles : Type 0 where
  pub tcp : Option Bytes
  pub tcp6 : Option Bytes
  pub udp : Option Bytes
  pub udp6 : Option Bytes

unfoldable pub match_files : ConnTuple → Option Bytes → Option Bytes → ℕ × Direction
unfolding match_file
match_files o a b = elim (match_file o (read_proc_net_file a)) [
  | some r ↦ r
  | none ↦ elim (match_file o (read_proc_net_file b)) [ some r ↦ r | none ↦ (0, unknown) ]
]

-- find_inode_with_dir; the inode is 0 if none is found
unfoldable pub find_inode_with_dir : SocketFiles → ConnTuple → ℕ × Direction
unfolding match_files
find_inode_with_dir files o =
    if o.proto == 6
    then match_files o files.tcp files.tcp6
    else if o.proto == 17
    then match_files o files.udp files.udp6
    else (0, unknown)
