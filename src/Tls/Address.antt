-- ===== src/Tls/Address.antt =====
-- parse_hex_addr and remote_from_proc_net of c/tls.c. inet_ntop is a parameter, and so is what
-- getnameinfo makes of the text of an address, none if it fails or if -R is given. The socket tables
-- are the contents of /proc/<pid>/net/tcp6 and tcp, none if they cannot be opened.
pub mod Reversed
use mathlib.Core.Option
use tracep.Base.{
  Bool, List, Option, [], drop, false, get_elem?, if◌then◌else◌, leb, length, ltb, none, not, some,
  take, true, ℕ, ◌%◌, ◌&&◌, ◌++◌, ◌-◌, ◌/◌, ◌==◌, ◌||◌, ◌∷◌,
}
use tracep.Memory.{Bytes, cstr}
use tracep.Text.{codes, decimal, same_text}
use tracep.Text.Hex.{cut_at, fields_of, lines_from, strtoul16}

-- the bytes of pairs of digits, each read by strtoul, which must use both
unfoldable pub pair_bytes : Bytes → Option Bytes
unfolding strtoul16
pair_bytes (x ∷ y ∷ s) =
    let (v, rest) = strtoul16 (x ∷ y ∷ []) in
    let more = pair_bytes s in
    if length rest == 0 then Option.map (λ b. (v % 256) ∷ b) more else none
pair_bytes s = some []

-- the port: not 0, of 16 bits; `e == port_hex` if strtoul takes no digit
unfoldable pub port_of : Bytes → Option ℕ
unfolding strtoul16
port_of s =
    let (v, rest) = strtoul16 s in
    if length rest == length s || (ltb 0xffff v || v == 0) then none else some v

-- the tests of an IPv4 address, on the bytes from the text, and the address given to inet_ntop
unfoldable pub ipv4_of : Bytes → Option Bytes
ipv4_of (b0 ∷ b1 ∷ b2 ∷ b3 ∷ []) =
    if b0 == 127 || b0 == 0 && (b1 == 0 && (b2 == 0 && b3 == 0))
    then none
    else some (b0 ∷ b1 ∷ b2 ∷ b3 ∷ [])
ipv4_of b = none

-- each group of 4 bytes turned round
unfoldable pub turned : Bytes → Bytes
turned (a ∷ b ∷ c ∷ d ∷ s) = d ∷ c ∷ b ∷ a ∷ turned s
turned s = []

abbrev pub all_zero : Bytes → Bool
all_zero [] = true
all_zero (b ∷ s) = b == 0 && all_zero s

-- IN6_IS_ADDR_UNSPECIFIED or IN6_IS_ADDR_LOOPBACK
abbrev pub is_loopback6 : Bytes → Bool
is_loopback6 [] = true
is_loopback6 (b ∷ []) = leb b 1
is_loopback6 (b ∷ c ∷ s) = b == 0 && is_loopback6 (c ∷ s)

-- IN6_IS_ADDR_LINKLOCAL: fe80::/10
abbrev pub is_link_local : Bytes → Bool
is_link_local (a ∷ b ∷ s) = a == 0xfe && b / 64 == 2
is_link_local s = false

unfoldable pub ipv6_of : Bytes → Option Bytes
unfolding turned
ipv6_of b =
    let ip = turned b in
    if not (length b == 16) || (is_loopback6 ip || is_link_local ip) then none else some ip

-- the first test that fails ends it
infixl 5 ◌>>=◌
abbrev ◌>>=◌ : {A B : Type 0} → Option A → (A → Option B) → Option B
none >>= f = none
some a >>= f = f a

-- the address and the port, before they are printed; `addr_hex` takes 63 characters, `b` 16 bytes
unfoldable pub hex_end : Bytes → Bool → Option (Bytes × ℕ)
unfolding cut_at
hex_end text is_v6 = do
  (digits, port_hex) ← cut_at b':' text
  port ← port_of port_hex
  bytes ←
      if ltb 63 (length digits) || not (length digits % 2 == 0) || ltb 32 (length digits)
      then none
      else pair_bytes digits
  ip ← if is_v6 then ipv6_of bytes else ipv4_of bytes
  some (ip, port)

-- `if (L && hbuf[L-1] == '.') hbuf[L-1] = 0`
unfoldable pub without_dot : Bytes → Bytes
without_dot [] = []
without_dot (c ∷ []) = if c == b'.' then [] else c ∷ []
without_dot (c ∷ d ∷ s) = c ∷ without_dot (d ∷ s)

module _ (inet_ntop : Bytes → Bytes) (name_of : Bytes → Option Bytes) where
  -- the text of an address
  unfoldable pub shown : Bytes → Bytes
  unfolding without_dot
  shown ip = elim (name_of (inet_ntop ip)) [ none ↦ inet_ntop ip | some host ↦ without_dot host ]

  -- parse_hex_addr; `room` is the size of `dst`
  unfoldable pub parse_hex_addr : Bytes → Bool → ℕ → Option Bytes
  unfolding hex_end shown decimal
  parse_hex_addr text is_v6 room =
      hex_end text is_v6 >>= λ e. some (take (room - 1) (shown e.0 ++ b':' ∷ decimal e.1))

  -- the lines that are left of a file: the first established connection that has an address
  unfoldable pub established : Bool → ℕ → List Bytes → Option Bytes
  unfolding fields_of cstr same_text
  established is_v6 room [] = none
  established is_v6 room (line ∷ lines) =
      let rest = established is_v6 room lines in
      let fields = fields_of (cstr line) in
      elim (get_elem? fields 3) [
        | none ↦ rest
        | some state ↦
            if same_text state (codes "01")
            then elim (get_elem? fields 2 >>= λ f. parse_hex_addr f is_v6 room) [
              | none ↦ rest
              | some dst ↦ some dst
            ]
            else rest
      ]

  -- one file, without its header
  unfoldable pub remote_in : Bool → ℕ → Option Bytes → Option Bytes
  unfolding lines_from established
  remote_in is_v6 room none = none
  remote_in is_v6 room (some content) =
      established is_v6 room (drop 1 (lines_from 1023 1023 [] content))

  unfoldable pub remote_from_proc_net : Option Bytes → Option Bytes → ℕ → Option Bytes
  unfolding remote_in
  remote_from_proc_net tcp6 tcp room = elim (remote_in true room tcp6) [
    | some dst ↦ some dst
    | none ↦ remote_in false room tcp
  ]
