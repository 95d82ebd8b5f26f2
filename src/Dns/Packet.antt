-- ===== src/Dns/Packet.antt =====
-- parse_packet of c/dns.c: the Ethernet, IP and UDP headers in front of a DNS message. `ip` and
-- `iplen` of the source are an offset into the packet and the bytes behind it.
pub mod Safety
use mathlib.Core.Option
use tracep.Base.{
  Option, drop, if◌then◌else◌, ltb, none, not, some, ℕ, ◌%◌, ◌&&◌, ◌*◌, ◌+◌, ◌-◌, ◌/◌, ◌==◌, ◌||◌,
}
use tracep.Dns.Message.{DnsMsg, Family, parse_dns}
use tracep.Memory.{Bytes, Outcome, be16, load, ok, ◌>>=◌}

pub record Packet : Type 0 where
  pub src : ℕ
  pub dst : ℕ
  pub msg : DnsMsg

-- IPv4: `ip[0] >> 4` and the header length `(ip[0] & 0x0F) * 4`; none for `return false`
pub ipv4 : Bytes → ℕ → Outcome (Option (ℕ × ℕ))
unfolding load
ipv4 pkt len = if ltb (len - 14) 20 then ok none else do
  b0 ← load pkt 14
  if not (b0 / 16 == 4) then ok none else (do
    proto ← load pkt 23
    let ihl = b0 % 16 * 4
    if not (proto == 17)
        then ok none
        else ok (
            if ltb ihl 20 || ltb (len - 14) (ihl + 8)
            then none
            else some (14 + ihl, len - 14 - ihl)))

-- IPv6, whose header has 40 bytes
pub ipv6 : Bytes → ℕ → Outcome (Option (ℕ × ℕ))
unfolding load
ipv6 pkt len = if ltb (len - 14) 40 then ok none else do
  b0 ← load pkt 14
  if not (b0 / 16 == 6)
      then ok none
      else (do next ← load pkt 20; ok (if not (next == 17) then none else some (54, len - 14 - 40)))

module _ (inet_ntop : Family → Bytes → Option Bytes) where
  -- from the UDP header on
  pub udp : Bytes → ℕ → ℕ → Outcome (Option Packet)
  unfolding be16
  udp pkt ip iplen = if ltb iplen 8 then ok none else do
    src ← be16 pkt ip
    dst ← be16 pkt (ip + 2)
    if not (src == 53) && not (dst == 53) then ok none else (do
      m ← parse_dns inet_ntop (drop (ip + 8) pkt) (iplen - 8)
      ok (Option.map (λ m. record { src = src; dst = dst; msg = m }) m))

  unfoldable pub parse_packet : Bytes → ℕ → Outcome (Option Packet)
  unfolding ipv4 ipv6 udp
  parse_packet pkt len = if ltb len 14 then ok none else do
    eth ← be16 pkt 12
    ip ← if eth == 0x0800 then ipv4 pkt len else if eth == 0x86DD then ipv6 pkt len else ok none
    elim ip [ none ↦ ok none | some (at, iplen) ↦ udp pkt at iplen ]
