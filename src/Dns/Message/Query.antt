-- ===== src/Dns/Message/Query.antt =====
-- parse_dns of c/dns.c against an encoder of messages with one question.
use tracep.Base.{
  All, List, Option, [], arith, false, length, length-append, ltb, refl, some, take_all, true, ℕ,
  ◌%◌, ◌++◌, ◌+◌, ◌/◌, ◌<◌, ◌^◌, ◌∙◌, ◌∷◌, ◌≡◌, ◌≢◌, ◌≤◌,
}
use tracep.Dns.Message.{DnsMsg, Family, parse_dns, read_answers, read_questions, zeroed}
use tracep.Dns.Name.{read_name}
use tracep.Dns.Name.RoundTrip.{
  IsLabel, StandsAt, StandsAt-drop, StandsAt-head, StandsAt-le, StandsAt-tail, domain,
  length-le-wire, read_domain, wire,
}
use tracep.Memory.{Bytes, be16, cstr, ok, print_s, ◌>>=◌}

-- two bytes, the high one first
abbrev pub word : ℕ → Bytes → Bytes
word v rest = v / 256 ∷ v % 256 ∷ rest

-- A message with one question. The header's last two counts are not read.
abbrev pub message : (id flags an ns ar qtype qclass : ℕ) → List Bytes → Bytes → Bytes
message id flags an ns ar qtype qclass ls rest =
    word id
      (word flags (word 1 (word an (word ns (word ar (wire ls ++ word qtype (word qclass rest)))))))

be16-StandsAt :
    (d : Bytes) (off v : ℕ) (rest : Bytes)
    → v < 2 ^ 16
    → StandsAt d off (word v rest)
    → be16 d off ≡ ok v
unfolding be16
be16-StandsAt d off v rest lt s = ground (
  arith,
  StandsAt-head d off (v / 256) (v % 256 ∷ rest) s,
  StandsAt-head d (off + 1) (v % 256) rest (StandsAt-tail d off (v / 256) (v % 256 ∷ rest) s),
)

module _ (d rest : Bytes) (qtype qclass : ℕ) (ls : List Bytes) (labels : All IsLabel ls)
    (fits : length (domain ls) ≤ 255) (lt : qtype < 2 ^ 16) where
  read_name-StandsAt :
      (off : ℕ)
      → StandsAt d off (wire ls ++ word qtype (word qclass rest))
      → read_name d (length d) 256 off (some [])
        ≡ ok (some (off + length (wire ls), some (domain ls)))
  unfolding read_name
  read_name-StandsAt off s =
      let after = word qtype (word qclass rest) in
      read_domain ls d after 256 (length d + 1) off s labels (omega arith) (
        omega (
          arith,
          StandsAt-le d off (wire ls ++ after) s,
          length-append (wire ls) after,
          length-le-wire ls,
        ))

  read_question :
      (off : ℕ) (m : DnsMsg)
      → StandsAt d off (wire ls ++ word qtype (word qclass rest))
      → read_questions 1 true d (length d) off m
        ≡ ok (
            some (
              off + length (wire ls) + 4,
              record m { question = print_s 256 (domain ls); qtype = qtype },
            ))
  unfolding read_questions
  read_question off m s =
      let after = word qtype (word qclass rest) in
      let s' = StandsAt-drop d off (wire ls) after s in
      let le = StandsAt-le d (off + length (wire ls)) after s' in
      let room : ltb (length d) (off + length (wire ls) + 4) ≡ false = ground arith in
      rw (
        read_name-StandsAt off s,
        ◌>>=◌,
        room,
        be16-StandsAt d (off + length (wire ls)) qtype (word qclass rest) lt s',
      )

pub cstr-no_nul : (s : Bytes) → All (λ c. c ≢ 0) s → cstr s ≡ s
unfolding cstr
cstr-no_nul [] h = refl
cstr-no_nul (c ∷ s) h = ground (arith, h.0, cstr-no_nul s h.1)

-- what the header and the first question make of the message
abbrev pub asked : List Bytes → ℕ → ℕ → ℕ → DnsMsg
asked ls id flags qtype = record {
  id = id;
  flags = flags;
  qtype = qtype;
  question = print_s 256 (domain ls);
  answers = [];
}

module _ (inet_ntop : Family → Bytes → Option Bytes) (ls : List Bytes) (labels : All IsLabel ls)
    (fits : length (domain ls) ≤ 255) where
  parse_dns-header :
      (d : Bytes) (id flags an qtype qclass : ℕ) (rest : Bytes)
      → be16 d 0 ≡ ok id
      → be16 d 2 ≡ ok flags
      → be16 d 4 ≡ ok 1
      → be16 d 6 ≡ ok an
      → 12 ≤ length d
      → qtype < 2 ^ 16
      → StandsAt d 12 (wire ls ++ word qtype (word qclass rest))
      → parse_dns inet_ntop d (length d) ≡ (
          read_answers inet_ntop an d
            (length d)
            (12 + length (wire ls) + 4)
            (asked ls id flags qtype)
          >>= λ m. ok (some m))
  unfolding parse_dns
  parse_dns-header d id flags an qtype qclass rest e0 e2 e4 e6 long lt s =
      let start : DnsMsg = record zeroed { id = id; flags = flags } in
      let q = read_question d rest qtype qclass ls labels fits lt 12 start s in
      let long' : ltb (length d) 12 ≡ false = ground arith in rw (long', e0, e2, e4, e6, ◌>>=◌, q)

  -- A message with one question, whose labels have 1 to 63 bytes and at most 255 with their dots,
  -- and whose fields fit 16 bits, with any number of answers announced, is read as its header's id
  -- and flags, the question with dots between its labels, cut at its first NUL where a label holds
  -- one, and what read_answers makes of the rest.
  pub parse_dns-message :
      (id flags an ns ar qtype qclass : ℕ) (rest : Bytes)
      → id < 2 ^ 16
      → flags < 2 ^ 16
      → an < 2 ^ 16
      → qtype < 2 ^ 16
      → parse_dns inet_ntop
          (message id flags an ns ar qtype qclass ls rest)
          (length (message id flags an ns ar qtype qclass ls rest))
        ≡ (read_answers inet_ntop an
              (message id flags an ns ar qtype qclass ls rest)
              (length (message id flags an ns ar qtype qclass ls rest))
              (12 + length (wire ls) + 4)
              (asked ls id flags qtype)
            >>= λ m. ok (some m))
  parse_dns-message id flags an ns ar qtype qclass rest hid hflags han hq =
      let tail = wire ls ++ word qtype (word qclass rest) in
      let d : Bytes = message id flags an ns ar qtype qclass ls rest in
      let w6 = word an (word ns (word ar tail)) in
      let w4 = word 1 w6 in
      let w2 = word flags w4 in
      parse_dns-header d id flags an qtype qclass rest
        (be16-StandsAt d 0 id w2 hid ([], refl, refl))
        (be16-StandsAt d 2 flags w4 hflags (word id [], refl, refl))
        (be16-StandsAt d 4 1 w6 (omega arith) (word id (word flags []), refl, refl))
        (be16-StandsAt d 6 an (word ns (word ar tail)) han
          (word id (word flags (word 1 [])), refl, refl))
        (omega arith) hq
        (word id (word flags (word 1 (word an (word ns (word ar []))))), refl, refl)

  -- A message with one question and no answer, whose labels have 1 to 63 bytes and at most 255 with
  -- their dots and hold no NUL, and whose fields fit 16 bits, is read back whole: id, flags, type
  -- and name, and no answer.
  parse_dns-query :
      (id flags ns ar qtype qclass : ℕ) (rest : Bytes)
      → id < 2 ^ 16
      → flags < 2 ^ 16
      → qtype < 2 ^ 16
      → All (λ c. c ≢ 0) (domain ls)
      → parse_dns inet_ntop
          (message id flags 0 ns ar qtype qclass ls rest)
          (length (message id flags 0 ns ar qtype qclass ls rest))
        ≡ ok (
            some (record {
              id = id;
              flags = flags;
              qtype = qtype;
              question = domain ls;
              answers = [];
            }))
  unfolding read_answers
  parse_dns-query id flags ns ar qtype qclass rest hid hflags hq no_nul =
      let whole = take_all 255 (domain ls) fits in
      parse_dns-message id flags 0 ns ar qtype qclass rest hid hflags (omega arith) hq
      ∙ unfold print_s in rw (cstr-no_nul (domain ls) no_nul, whole)
