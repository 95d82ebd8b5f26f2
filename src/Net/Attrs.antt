-- ===== src/Net/Attrs.antt =====
-- parse_nla, parse_tuple and parse_tcp_state of c/net.c: netlink attributes, nested in each other. A
-- pointer into the message is an offset into the buffer `d`. The loop of parse_nla has no bound of
-- its own, so it gets rounds, one for each 4 bytes and one more.
pub mod Within
pub mod Tuple
use mathlib.Core.Option
use tracep.Base.{
  Option, [], false, if◌then◌else◌, length, ltb, none, set, some, suc, true, zero, ℕ, ◌%◌, ◌&&◌,
  ◌*◌, ◌+◌, ◌-◌, ◌/◌, ◌==◌, ◌^◌, ◌||◌,
}
use tracep.Dns.Message.{slice}
use tracep.Memory.{Bytes, Outcome, be16, load, ok, spin, ◌>>=◌}

-- NLA_MAX_TYPE
abbrev pub nla_max_type : ℕ
nla_max_type = 64

-- nla_set: for each type that was found, where its value begins, and its length
abbrev pub NlaSet : Type 0
NlaSet = ℕ → Option (ℕ × ℕ)

-- `p[0] | p[1] << 8`
unfoldable pub le16 : Bytes → ℕ → Outcome ℕ
unfolding load
le16 d i = do lo ← load d i; hi ← load d (i + 1); ok ((lo + hi * 256) % 2 ^ 16)

-- the first attribute of a type stays
unfoldable pub add_attr : NlaSet → ℕ → ℕ × ℕ → NlaSet
add_attr set typ v t =
    if t == typ && ltb typ nla_max_type
    then elim (set t) [ none ↦ some v | some old ↦ some old ]
    else set t

-- `(end + 3) & ~3`
abbrev pub aligned : ℕ → ℕ
aligned n = (n + 3) / 4 * 4

unfoldable pub nla_loop : ℕ → Bytes → ℕ → ℕ → NlaSet → Outcome NlaSet
unfolding le16 add_attr
nla_loop zero d off n set = spin
nla_loop (suc rounds) d off n set = elim (ltb n 4) [
  | true ↦ ok set
  | false ↦ le16 d off >>= λ len. le16 d (off + 2) >>= λ typ. elim (ltb len 4 || ltb n len) [
    | true ↦ ok set
    | false ↦
        let set' = add_attr set (typ % 2 ^ 14) (off + 4, len - 4) in
        elim (ltb n (aligned len)) [
          | true ↦ ok set'
          | false ↦ nla_loop rounds d (off + aligned len) (n - aligned len) set'
        ]
  ]
]

unfoldable pub parse_nla : Bytes → ℕ → ℕ → Outcome NlaSet
unfolding nla_loop
parse_nla d off n = nla_loop (n / 4 + 1) d off n (λ t. none)

-- conn_tuple; an address is its bytes, none of them if it is not set
pub record ConnTuple : Type 0 where
  pub src_ip : Bytes
  pub dst_ip : Bytes
  pub src_port : ℕ
  pub dst_port : ℕ
  pub proto : ℕ

-- an address of `size` bytes, if the set has one
unfoldable pub address_attr : Bytes → NlaSet → ℕ → ℕ → Bytes → Outcome Bytes
unfolding slice
address_attr d set t size old = elim (set t) [
  | none ↦ ok old
  | some (off, len) ↦ if len == size then slice size d off else ok old
]

-- a number of one byte, or of two in network order
unfoldable pub byte_attr : Bytes → NlaSet → ℕ → Outcome ℕ
unfolding load
byte_attr d set t = elim (set t) [
  | none ↦ ok 0
  | some (off, len) ↦ if ltb len 1 then ok 0 else load d off
]

unfoldable pub port_attr : Bytes → NlaSet → ℕ → Outcome ℕ
unfolding be16
port_attr d set t = elim (set t) [
  | none ↦ ok 0
  | some (off, len) ↦ if ltb len 2 then ok 0 else be16 d off
]

-- the block under CTA_TUPLE_IP
unfoldable pub read_addresses : Bytes → NlaSet → Outcome (Bytes × Bytes)
unfolding parse_nla address_attr
read_addresses d ta = elim (ta 1) [
  | none ↦ ok ([], [])
  | some (off, len) ↦ do
    ia ← parse_nla d off len
    src4 ← address_attr d ia 1 4 []
    dst4 ← address_attr d ia 2 4 []
    src ← address_attr d ia 3 16 src4
    dst ← address_attr d ia 4 16 dst4
    ok (src, dst)
]

-- the block under CTA_TUPLE_PROTO: the protocol, and the two ports
unfoldable pub read_ports : Bytes → NlaSet → Outcome (ℕ × ℕ × ℕ)
unfolding parse_nla byte_attr port_attr
read_ports d ta = elim (ta 2) [
  | none ↦ ok (0, 0, 0)
  | some (off, len) ↦ do
    pa ← parse_nla d off len
    proto ← byte_attr d pa 1
    src ← port_attr d pa 2
    dst ← port_attr d pa 3
    ok (proto, src, dst)
]

-- parse_tuple for CTA_TUPLE_ORIG, of the `plen` bytes at offset `at`
unfoldable pub parse_tuple : Bytes → ℕ → ℕ → Outcome (Option ConnTuple)
unfolding parse_nla read_addresses read_ports
parse_tuple d at plen = do
  top ← parse_nla d at plen
  elim (top 1) [
    | none ↦ ok none
    | some (off, len) ↦ do
      ta ← parse_nla d off len
      ips ← read_addresses d ta
      ports ← read_ports d ta
      ok (
          if length ips.0 == 0 || length ips.1 == 0
          then none
          else some (record {
            src_ip = ips.0;
            dst_ip = ips.1;
            src_port = ports.1;
            dst_port = ports.2;
            proto = ports.0;
          }))
  ]

-- parse_nla of the attribute of a type in a set, none if there is none
unfoldable pub nested : Bytes → NlaSet → ℕ → Outcome (Option NlaSet)
unfolding parse_nla
nested d set t = elim (set t) [
  | none ↦ ok none
  | some (off, len) ↦ do inner ← parse_nla d off len; ok (some inner)
]

unfoldable pub parse_tcp_state : Bytes → ℕ → ℕ → Outcome ℕ
unfolding parse_nla nested byte_attr
parse_tcp_state d at plen = do
  top ← parse_nla d at plen
  pi ← nested d top 4
  elim pi [
    | none ↦ ok 0
    | some pi ↦ nested d pi 1 >>= λ tcp. elim tcp [ none ↦ ok 0 | some tcp ↦ byte_attr d tcp 1 ]
  ]
