-- ===== src/Dns/Message.antt =====
-- parse_dns of c/dns.c with add_answer, qtype_str and rcode_str. inet_ntop is a parameter: it
-- prints the bytes of an address of either family, or fails.
pub mod Stored
pub mod Safety
pub mod Circle
pub mod Query
use Prim.Native.Nat.{min}
use tracep.Base.{
  Bool, List, Option, [], false, if◌then◌else◌, leb, length, ltb, none, some, suc, take, true, zero,
  ℕ, ◌%◌, ◌++◌, ◌+◌, ◌==◌, ◌∷◌,
}
use tracep.Dns.Name.{read_name}
use tracep.Memory.{Bytes, Outcome, be16, cstr, load, ok, print_s, spin, ◌>>=◌}
use tracep.Text.{codes, decimal}

abbrev pub max_ans : ℕ
max_ans = 16

pub record DnsMsg : Type 0 where
  pub id : ℕ
  pub flags : ℕ
  pub qtype : ℕ
  pub question : Bytes
  pub answers : List Bytes

-- `memset(m, 0, sizeof *m)`
abbrev pub zeroed : DnsMsg
zeroed = record { id = 0; flags = 0; qtype = 0; question = []; answers = [] }

-- A full list drops the answer. `snprintf(buf, 300, "%s%s", prefix, val)` makes the text.
pub add_answer : DnsMsg → Bytes → Bytes → DnsMsg
unfolding cstr
add_answer m pre_text val =
    if leb max_ans (length m.answers)
    then m
    else record m { answers = m.answers ++ take 299 (pre_text ++ cstr val) ∷ [] }

-- `n` bytes of the buffer
unfoldable pub slice : ℕ → Bytes → ℕ → Outcome Bytes
unfolding load
slice zero d off = ok []
slice (suc n) d off = do b ← load d off; rest ← slice n d (off + 1); ok (b ∷ rest)

abbrev pub written : Option Bytes → Bytes
written none = []
written (some w) = w

-- The loop over the questions: the offset behind them, or none for `return false`.
pub read_questions : ℕ → Bool → Bytes → ℕ → ℕ → DnsMsg → Outcome (Option (ℕ × DnsMsg))
unfolding read_name print_s be16
read_questions zero first d len off m = ok (some (off, m))
read_questions (suc n) first d len off m = read_name d len 256 off (some []) >>= λ r. elim r [
  | none ↦ ok none
  | some (next, name) ↦ elim (ltb len (next + 4)) [
    | true ↦ ok none
    | false ↦ be16 d next >>= λ qt.
        read_questions n false d len (next + 4)
          (if first then record m { question = print_s 256 (written name); qtype = qt } else m)
  ]
]

-- `if (read_name(d, len, at, nm, sizeof nm) >= 0) add_answer(m, prefix, nm)`
pub name_answer : Bytes → Bytes → ℕ → ℕ → DnsMsg → Outcome DnsMsg
unfolding read_name add_answer
name_answer pre_text d len at m = do
  r ← read_name d len 256 at (some [])
  ok (elim r [ none ↦ m | some (next, nm) ↦ add_answer m pre_text (written nm) ])

-- case 16: `while (p < rdlen)`; each round moves `p`, so `rdlen` rounds are enough.
pub txt_strings : ℕ → Bytes → ℕ → ℕ → ℕ → DnsMsg → Outcome DnsMsg
unfolding load slice add_answer
txt_strings zero d rdoff rdlen p m = spin
txt_strings (suc rounds) d rdoff rdlen p m = elim (ltb p rdlen) [
  | false ↦ ok m
  | true ↦ load d (rdoff + p) >>= λ sl. elim (ltb rdlen (p + 1 + sl)) [
    | true ↦ ok m
    | false ↦ slice (min sl 299) d (rdoff + (p + 1)) >>= λ t.
        txt_strings rounds d rdoff rdlen (p + 1 + sl) (add_answer m [] t)
  ]
]

pub data Family : Type 0 where
  inet inet6 : Family

module _ (inet_ntop : Family → Bytes → Option Bytes) where
  -- cases 1 and 28
  pub address_answer : Family → ℕ → Bytes → ℕ → ℕ → DnsMsg → Outcome DnsMsg
  unfolding slice add_answer
  address_answer family size d rdoff rdlen m =
      if rdlen == size
      then (do
        rd ← slice size d rdoff
        ok (elim (inet_ntop family rd) [ none ↦ m | some ip ↦ add_answer m [] ip ]))
      else ok m

  -- the switch over the record's type
  pub add_record : ℕ → Bytes → ℕ → ℕ → ℕ → DnsMsg → Outcome DnsMsg
  unfolding address_answer name_answer txt_strings
  add_record rtype d len rdoff rdlen m =
      if rtype == 1
      then address_answer inet 4 d rdoff rdlen m
      else if rtype == 28
      then address_answer inet6 16 d rdoff rdlen m
      else if rtype == 5
      then name_answer (codes "CNAME:") d len rdoff m
      else if rtype == 2
      then name_answer (codes "NS:") d len rdoff m
      else if rtype == 12
      then name_answer [] d len rdoff m
      else if rtype == 15
      then (if ltb 2 rdlen then name_answer (codes "MX:") d len (rdoff + 2) m else ok m)
      else if rtype == 33
      then (if ltb 6 rdlen then name_answer (codes "SRV:") d len (rdoff + 6) m else ok m)
      else if rtype == 16
      then txt_strings (rdlen + 1) d rdoff rdlen 0 m
      else ok m

  -- The loop over the answers; `break` keeps what has been read.
  pub read_answers : ℕ → Bytes → ℕ → ℕ → DnsMsg → Outcome DnsMsg
  unfolding read_name be16 add_record
  read_answers zero d len off m = ok m
  read_answers (suc n) d len off m = read_name d len 0 off none >>= λ r. elim r [
    | none ↦ ok m
    | some (next, nothing) ↦ elim (ltb len (next + 10)) [
      | true ↦ ok m
      | false ↦ do
        rtype ← be16 d next
        rdlen ← be16 d (next + 8)
        elim (ltb len (next + 10 + rdlen)) [
          | true ↦ ok m
          | false ↦
              add_record rtype d len (next + 10) rdlen m
              >>= read_answers n d len (next + 10 + rdlen)
        ]
    ]
  ]

  unfoldable pub parse_dns : Bytes → ℕ → Outcome (Option DnsMsg)
  unfolding be16 read_questions read_answers
  parse_dns d len = if ltb len 12 then ok none else do
    id ← be16 d 0
    flags ← be16 d 2
    qd ← be16 d 4
    an ← be16 d 6
    q ← read_questions qd true d len 12 (record zeroed { id = id; flags = flags })
    elim q [
      | none ↦ ok none
      | some (off, m) ↦ do answered ← read_answers an d len off m; ok (some answered)
    ]

-- `printf` of a record type that has no name
unfoldable pub qtype_str : ℕ → Bytes
unfolding decimal
qtype_str t =
    if t == 1
    then codes "A"
    else if t == 2
    then codes "NS"
    else if t == 5
    then codes "CNAME"
    else if t == 6
    then codes "SOA"
    else if t == 12
    then codes "PTR"
    else if t == 15
    then codes "MX"
    else if t == 16
    then codes "TXT"
    else if t == 28
    then codes "AAAA"
    else if t == 33
    then codes "SRV"
    else if t == 255
    then codes "ANY"
    else take 15 (codes "TYPE" ++ decimal t)

pub rcode_str : ℕ → Bytes
unfolding decimal
rcode_str r =
    let low = r % 16 in
    if low == 0
    then codes "NOERROR"
    else if low == 1
    then codes "FORMERR"
    else if low == 2
    then codes "SERVFAIL"
    else if low == 3
    then codes "NXDOMAIN"
    else if low == 4
    then codes "NOTIMP"
    else if low == 5
    then codes "REFUSED"
    else take 15 (codes "RCODE" ++ decimal low)
