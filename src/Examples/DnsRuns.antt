-- ===== src/Examples/DnsRuns.antt =====
-- c/dns.c at concrete packets: a query for example.com of type AAAA, and a packet whose name is a
-- pointer to itself.
use tracep.Base.{List, Option, [], arith, none, refl, replicate, some, ℕ, ◌++◌, ◌∷◌, ◌≡◌}
use tracep.Dns.Message.{Family, parse_dns, read_answers}
use tracep.Dns.Message.Circle.{parse_dns_circle}
use tracep.Dns.Message.Query.{asked, message, parse_dns-message, word}
use tracep.Dns.Message.Safety.{ParsedWithin, parse_dns-HasNoPointer, parse_dns-Safe}
use tracep.Dns.Name.{read_loop, read_name}
use tracep.Dns.Name.RoundTrip.{domain, read_name-wire, wire}
use tracep.Dns.Name.Rounds.{read_loop-rounds}
use tracep.Dns.Name.Safety.{ReadWithin, read_name_within}
use tracep.Dns.Packet.{parse_packet}
use tracep.Dns.Packet.Safety.{PacketWithin, parse_packet-Safe}
use tracep.Memory.{Bytes, Returns, Safe, be16, ok, spin, ◌>>=◌}
use tracep.Text.{codes}

abbrev no_address : Family → Bytes → Option Bytes
no_address family raw = some raw

abbrev example_com : List Bytes
example_com = codes "example" ∷ codes "com" ∷ []

abbrev query : Bytes
query = message 7 256 0 0 0 28 1 example_com []

parse_dns_run :
    parse_dns no_address query 29
    ≡ ok (
        some (record {
          id = 7;
          flags = 256;
          qtype = 28;
          question = codes "example.com";
          answers = [];
        }))
unfolding parse_dns wire
parse_dns_run = refl

abbrev looping : Bytes
looping = word 7 (word 256 (word 1 (word 0 (word 0 (word 0 (0xC0 ∷ 12 ∷ word 1 (word 1 [])))))))

looping_run : parse_dns no_address looping 18 ≡ spin
unfolding parse_dns
looping_run = refl

-- an answer whose name is a pointer to the question's
abbrev answered : Bytes
answered =
    message 7 0x8180 1 0 0 1 1 example_com
      (0xC0 ∷ 12 ∷ word 1 (word 1 (0 ∷ 0 ∷ 0 ∷ 60 ∷ word 4 (93 ∷ 184 ∷ 216 ∷ 34 ∷ []))))

answered_run :
    parse_dns no_address answered 45
    ≡ ok (
        some (record {
          id = 7;
          flags = 0x8180;
          qtype = 1;
          question = codes "example.com";
          answers = (93 ∷ 184 ∷ 216 ∷ 34 ∷ []) ∷ [];
        }))
unfolding parse_dns wire
answered_run = refl

read_name_within_example : Safe (ReadWithin 12 29 256) (read_name query 29 256 12 (some []))
unfolding wire
read_name_within_example = read_name_within query 29 256 12 (some []) (omega arith) (omega arith)

read_loop-rounds_example :
    read_loop 1000 looping 18 256 12 none (some []) ≡ read_loop 19 looping 18 256 12 none (some [])
read_loop-rounds_example =
    read_loop-rounds looping 18 256 1000 12 none (some []) (omega arith) (omega arith) (omega arith)

read_name-wire_example :
    read_name (0 ∷ 0 ∷ wire example_com ++ 9 ∷ []) 16 256 2 (some [])
    ≡ ok (some (15, some (codes "example.com")))
unfolding wire domain
read_name-wire_example =
    read_name-wire (0 ∷ 0 ∷ []) (9 ∷ []) example_com 256 (omega arith) (omega arith)

parse_dns-Safe_example : Safe ParsedWithin (parse_dns no_address answered 45)
unfolding wire
parse_dns-Safe_example = parse_dns-Safe no_address answered 45 (omega arith)

parse_dns_circle_example :
    (parse_dns no_address looping 18 ≡ spin)
    × ((rounds : ℕ) → read_loop rounds looping 18 256 12 none (some []) ≡ spin)
unfolding be16
parse_dns_circle_example =
    parse_dns_circle no_address looping 18 0xC0 12 0 (omega arith) refl
      (record { inside = omega arith; high = refl; low = refl; pointer = refl; itself = refl })

abbrev frame : Bytes
frame =
    replicate 12 1
    ++ (word 0x0800 (
        0x45 ∷ replicate 8 0
        ++ (17 ∷ replicate 10 0 ++ word 5353 (word 53 (word 37 (word 0 query))))))

parse_packet-Safe_example : Safe PacketWithin (parse_packet no_address frame 71)
unfolding wire
parse_packet-Safe_example = parse_packet-Safe no_address frame 71 (omega arith)

parse_dns-HasNoPointer_example : Returns ParsedWithin (parse_dns no_address query 29)
unfolding wire
parse_dns-HasNoPointer_example =
    parse_dns-HasNoPointer no_address query 29 (omega arith) (omega arith)

parse_dns-message_example :
    parse_dns no_address answered 45
    ≡ (read_answers no_address 1 answered 45 29 (asked example_com 7 0x8180 1) >>= λ m. ok (some m))
unfolding wire domain
parse_dns-message_example =
    parse_dns-message no_address example_com (omega arith) (omega arith) 7 0x8180 1 0 0 1 1
      (0xC0 ∷ 12 ∷ word 1 (word 1 (0 ∷ 0 ∷ 0 ∷ 60 ∷ word 4 (93 ∷ 184 ∷ 216 ∷ 34 ∷ []))))
      (omega arith) (omega arith) (omega arith) (omega arith)
