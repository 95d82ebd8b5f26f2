-- ===== src/Dns/Packet/Safety.antt =====
-- parse_packet of c/dns.c: what it reads of a frame, and the packets that it takes.
use mathlib.Core.Option
use tracep.Base.{
  Bool, Bool-cases, Option, arith, drop, false, get_elem?_within, if◌then◌else◌, inl, inr, length,
  length-drop, ltb, none, not, some, true, ℕ, ◌&&◌, ◌+◌, ◌-◌, ◌<◌, ◌==◌, ◌^◌, ◌≡◌, ◌≤◌, ◌⊎◌,
}
use tracep.Dns.Message.{DnsMsg, Family, parse_dns}
use tracep.Dns.Message.Safety.{ParsedWithin, parse_dns-Safe}
use tracep.Dns.Message.Stored.{MsgWithin}
use tracep.Dns.Packet.{Packet, ipv4, ipv6, parse_packet, udp}
use tracep.Memory.{Bytes, Returns, Safe, Within-bind, Within-of_Returns, be16, be16_within, ok}

-- The UDP header and what follows it, from an offset to the end of the frame.
abbrev RestWithin : ℕ → Option (ℕ × ℕ) → Type 0
RestWithin len none = Unit
RestWithin len (some (at, iplen)) = at + iplen ≡ len

ipv4_within : (pkt : Bytes) (len : ℕ) → len ≤ length pkt → Returns (RestWithin len) (ipv4 pkt len)
unfolding ipv4
ipv4_within pkt len inside = ground (arith, get_elem?_within pkt 14, get_elem?_within pkt 23)

ipv6_within : (pkt : Bytes) (len : ℕ) → len ≤ length pkt → Returns (RestWithin len) (ipv6 pkt len)
unfolding ipv6
ipv6_within pkt len inside = ground (arith, get_elem?_within pkt 14, get_elem?_within pkt 20)

-- A packet that is taken was sent from port 53 or to it, and its message fits.
abbrev pub PacketWithin : Option Packet → Type 0
PacketWithin none = Unit
PacketWithin (some p) = ((p.src ≡ 53) ⊎ (p.dst ≡ 53)) × MsgWithin p.msg

module _ (inet_ntop : Family → Bytes → Option Bytes) where
  udp-PacketWithin :
      (src dst : ℕ)
      → (not (src == 53) && not (dst == 53)) ≡ false
      → (o : Option DnsMsg) → ParsedWithin o
      → PacketWithin (Option.map (λ m. record { src = src; dst = dst; msg = m }) o)
  udp-PacketWithin src dst e none h = tt
  udp-PacketWithin src dst e (some m) h = (ground arith, h)

  udp_within :
      (pkt : Bytes) (len ip iplen : ℕ)
      → len ≤ length pkt
      → ip + iplen ≡ len
      → Safe PacketWithin (udp inet_ntop pkt ip iplen)
  unfolding udp
  udp_within pkt len ip iplen inside e = elim (Bool-cases (ltb iplen 8)) [
    | inl cut ↦ rw cut tt
    | inr fits ↦ rw fits (
        Within-bind Unit (λ v. v < 2 ^ 16) PacketWithin (be16 pkt ip) _
          (Within-of_Returns Unit (λ v. v < 2 ^ 16) _ (be16_within pkt ip (ground arith)))
          (λ src _.
            Within-bind Unit (λ v. v < 2 ^ 16) PacketWithin (be16 pkt (ip + 2)) _
              (Within-of_Returns Unit (λ v. v < 2 ^ 16) _ (be16_within pkt (ip + 2) (ground arith)))
              (λ dst _. elim (Bool-cases (not (src == 53) && not (dst == 53))) [
                | inl other ↦ rw other tt
                | inr dns ↦ rw dns (
                    Within-bind Unit ParsedWithin PacketWithin
                      (parse_dns inet_ntop (drop (ip + 8) pkt) (iplen - 8)) _
                      (parse_dns-Safe inet_ntop (drop (ip + 8) pkt) (iplen - 8)
                        (omega (arith, length-drop (ip + 8) pkt)))
                      (λ m h. udp-PacketWithin src dst dns m h))
              ])))
  ]

  -- Whatever a frame of at least `len` bytes holds, no byte outside it is read, and a packet that
  -- is taken has port 53 on one side and a message that fits its arrays.
  pub parse_packet-Safe :
      (pkt : Bytes) (len : ℕ)
      → len ≤ length pkt
      → Safe PacketWithin (parse_packet inet_ntop pkt len)
  unfolding parse_packet
  parse_packet-Safe pkt len inside = elim (Bool-cases (ltb len 14)) [
    | inl cut ↦ rw cut tt
    | inr fits ↦ rw fits (
        Within-bind Unit (λ v. v < 2 ^ 16) PacketWithin (be16 pkt 12) _
          (Within-of_Returns Unit (λ v. v < 2 ^ 16) _ (be16_within pkt 12 (ground arith)))
          (λ eth _.
            Within-bind Unit (RestWithin len) PacketWithin
              (if eth == 0x0800
                then ipv4 pkt len
                else if eth == 0x86DD
                then ipv6 pkt len
                else ok none)
              _ (headers eth (eth == 0x0800) (eth == 0x86DD))
              (elim [
                | none ↦ λ h. tt
                | some (at, iplen) ↦ λ h. udp_within pkt len at iplen inside h
              ])))
  ]
    where
      headers :
          (eth : ℕ) (v4 v6 : Bool)
          → Safe
              (RestWithin len)
              (if v4 then ipv4 pkt len else if v6 then ipv6 pkt len else ok none)
      headers eth true v6 = Within-of_Returns Unit (RestWithin len) _ (ipv4_within pkt len inside)
      headers eth false true =
          Within-of_Returns Unit (RestWithin len) _ (ipv6_within pkt len inside)
      headers eth false false = tt
