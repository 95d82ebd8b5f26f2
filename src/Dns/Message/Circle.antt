-- ===== src/Dns/Message/Circle.antt =====
-- parse_dns of c/dns.c on a packet whose name is a pointer to itself.
use tracep.Base.{
  Option, [], arith, false, length, ltb, none, some, suc, true, ℕ, ◌+◌, ◌<◌, ◌^◌, ◌≡◌, ◌≤◌,
}
use tracep.Dns.Message.{DnsMsg, Family, parse_dns, read_questions, zeroed}
use tracep.Dns.Name.{read_loop, read_name}
use tracep.Dns.Name.Circle.{PointsToItself, read_loop_circle}
use tracep.Memory.{Bytes, Returns-ok, be16, be16_within, ok, spin, ◌>>=◌}

read_questions_spin :
    (n : ℕ) (d : Bytes) (len off : ℕ) (m : DnsMsg)
    → read_name d len 256 off (some []) ≡ spin
    → read_questions (suc n) true d len off m ≡ spin
unfolding read_questions
read_questions_spin n d len off m e = rw (e, ◌>>=◌)

be16_value : (d : Bytes) (i : ℕ) → i + 2 ≤ length d → (v : ℕ) × (be16 d i ≡ ok v)
be16_value d i h =
    let (v, e, _) = Returns-ok (λ v. v < 2 ^ 16) (be16 d i) (be16_within d i h) in (v, e)

-- A message whose header announces a question, and whose name is a pointer to itself right behind
-- the header, is never parsed: parse_dns is still in read_name after its rounds, and no number of
-- rounds ends that loop.
pub parse_dns_circle :
    (inet_ntop : Family → Bytes → Option Bytes) (d : Bytes) (len hi lo n : ℕ)
    → len ≤ length d
    → be16 d 4 ≡ ok (suc n)
    → PointsToItself d len 12 hi lo
    → (parse_dns inet_ntop d len ≡ spin)
      × ((rounds : ℕ) → read_loop rounds d len 256 12 none (some []) ≡ spin)
unfolding parse_dns
parse_dns_circle inet_ntop d len hi lo n inside asked p =
    let stuck : read_name d len 256 12 (some []) ≡ spin =
      unfold read_name in read_loop_circle d len 12 hi lo p (len + 1) 256 none (some []) in
    let (id, e0) = be16_value d 0 (omega (arith, p.inside)) in
    let (flags, e2) = be16_value d 2 (omega (arith, p.inside)) in
    let (an, e6) = be16_value d 6 (omega (arith, p.inside)) in
    let m : DnsMsg = record zeroed { id = id; flags = flags } in
    let e = read_questions_spin n d len 12 m stuck in
    let long : ltb len 12 ≡ false = ground (arith, p.inside) in
    (
      rw (long, e0, e2, asked, e6, ◌>>=◌, e),
      λ rounds. read_loop_circle d len 12 hi lo p rounds 256 none (some []),
    )
