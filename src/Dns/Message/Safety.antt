-- ===== src/Dns/Message/Safety.antt =====
-- parse_dns of c/dns.c: what it reads and stores, against the packet and its arrays. The lemmas
-- take what read_name satisfies as `names`, with `E` for a name that is left spinning, so that they
-- serve for packets with and without pointers that lead in a circle.
use tracep.Base.{
  Bool, Bool-cases, Option, [], arith, false, if◌then◌else◌, inl, inr, length, ltb, none, some, suc,
  true, zero, ℕ, ◌+◌, ◌<◌, ◌^◌, ◌≤◌,
}
use tracep.Dns.Message.{
  DnsMsg, Family, add_record, inet, inet6, name_answer, parse_dns, read_answers, read_questions,
  written, zeroed,
}
use tracep.Dns.Message.Stored.{
  MsgWithin, add_answer-MsgWithin, address_answer_within, length-print_s, txt_strings_within,
}
use tracep.Dns.Name.{read_name}
use tracep.Dns.Name.Forward.{HasNoPointer, read_name_forward}
use tracep.Dns.Name.Safety.{Fits, ReadWithin, read_name_within}
use tracep.Memory.{
  Bytes, Outcome, Returns, Returns-of_Safe, Safe, Within, Within-bind, Within-of_Returns, be16,
  be16_within, print_s, ◌>>=◌,
}
use tracep.Text.{codes}

-- What the question loop returns: an offset in the packet, and a message that fits its arrays.
abbrev QuestionsWithin : ℕ → Option (ℕ × DnsMsg) → Type 0
QuestionsWithin len none = Unit
QuestionsWithin len (some (off, m)) = (off ≤ len) × MsgWithin m

asked_within :
    (first : Bool) (m : DnsMsg) (name : Bytes) (qt : ℕ)
    → MsgWithin m
    → MsgWithin (if first then record m { question = print_s 256 name; qtype = qt } else m)
asked_within true m name qt h = record {
  count = h.count;
  question = length-print_s 256 name;
  each = h.each;
}
asked_within false m name qt h = h

-- A packet that is parsed fits its arrays.
abbrev pub ParsedWithin : Option DnsMsg → Type 0
ParsedWithin none = Unit
ParsedWithin (some m) = MsgWithin m

module _ (E : Type 0) (d : Bytes) (len : ℕ) (inside : len ≤ length d)
    (names : (off size : ℕ) (dst : Option Bytes)
      → Fits size dst
      → Within E (ReadWithin off len size) (read_name d len size off dst)) where
  name_answer-Within :
      (pre_text : Bytes) (at : ℕ) (m : DnsMsg)
      → MsgWithin m
      → Within E MsgWithin (name_answer pre_text d len at m)
  unfolding name_answer
  name_answer-Within pre_text at m h =
      Within-bind E (ReadWithin at len 256) MsgWithin (read_name d len 256 at (some [])) _
        (names at 256 (some []) (omega arith))
        (elim [
          | none ↦ λ r. h
          | some (next, nm) ↦ λ r. add_answer-MsgWithin m pre_text (written nm) h
        ])

  read_questions-Within :
      (n : ℕ) (first : Bool) (off : ℕ) (m : DnsMsg)
      → off ≤ len
      → MsgWithin m
      → Within E (QuestionsWithin len) (read_questions n first d len off m)
  unfolding read_questions
  read_questions-Within zero first off m le h = (le, h)
  read_questions-Within (suc n) first off m le h =
      Within-bind E (ReadWithin off len 256) (QuestionsWithin len)
        (read_name d len 256 off (some [])) _ (names off 256 (some []) (omega arith))
        (elim [
          | none ↦ λ r. tt
          | some (next, name) ↦ λ r. elim (Bool-cases (ltb len (next + 4))) [
            | inl cut ↦ rw cut tt
            | inr fits ↦ rw fits (
                Within-bind E (λ v. v < 2 ^ 16) (QuestionsWithin len) (be16 d next) _
                  (Within-of_Returns E (λ v. v < 2 ^ 16) _ (be16_within d next (ground arith)))
                  (λ qt _.
                    read_questions-Within n false (next + 4) _ (ground arith)
                      (asked_within first m (written name) qt h)))
          ]
        ])

  module _ (inet_ntop : Family → Bytes → Option Bytes) where
    add_record-Within :
        (rtype rdoff rdlen : ℕ) (m : DnsMsg)
        → rdoff + rdlen ≤ len
        → MsgWithin m
        → Within E MsgWithin (add_record inet_ntop rtype d len rdoff rdlen m)
    unfolding add_record
    add_record-Within rtype rdoff rdlen m le h = ground (
      arith,
      Within-of_Returns E MsgWithin _
          (address_answer_within inet_ntop inet 4 d rdoff rdlen m (omega arith) h),
      Within-of_Returns E MsgWithin _
          (address_answer_within inet_ntop inet6 16 d rdoff rdlen m (omega arith) h),
      name_answer-Within (codes "CNAME:") rdoff m h,
      name_answer-Within (codes "NS:") rdoff m h,
      name_answer-Within [] rdoff m h,
      name_answer-Within (codes "MX:") (rdoff + 2) m h,
      name_answer-Within (codes "SRV:") (rdoff + 6) m h,
      Within-of_Returns E MsgWithin _ (
          txt_strings_within (rdlen + 1) d rdoff rdlen 0 m (omega arith) (omega arith) (omega arith)
            h),
    )

    read_answers-Within :
        (n off : ℕ) (m : DnsMsg)
        → MsgWithin m
        → Within E MsgWithin (read_answers inet_ntop n d len off m)
    unfolding read_answers
    read_answers-Within zero off m h = h
    read_answers-Within (suc n) off m h =
        Within-bind E (ReadWithin off len 0) MsgWithin (read_name d len 0 off none) _
          (names off 0 none tt)
          (elim [
            | none ↦ λ r. h
            | some (next, nothing) ↦ λ r. elim (Bool-cases (ltb len (next + 10))) [
              | inl cut ↦ rw cut h
              | inr fits ↦ rw fits (
                  Within-bind E (λ v. v < 2 ^ 16) MsgWithin (be16 d next) _
                    (Within-of_Returns E (λ v. v < 2 ^ 16) _ (be16_within d next (ground arith)))
                    (λ rtype _.
                      Within-bind E (λ v. v < 2 ^ 16) MsgWithin (be16 d (next + 8)) _
                        (Within-of_Returns E (λ v. v < 2 ^ 16) _
                          (be16_within d (next + 8) (ground arith)))
                        (λ rdlen _. elim (Bool-cases (ltb len (next + 10 + rdlen))) [
                          | inl cut ↦ rw cut h
                          | inr fits' ↦ rw fits' (
                              Within-bind E MsgWithin MsgWithin
                                (add_record inet_ntop rtype d len (next + 10) rdlen m) _
                                (add_record-Within rtype (next + 10) rdlen m (ground arith) h)
                                (λ m' h'. read_answers-Within n (next + 10 + rdlen) m' h'))
                        ])))
            ]
          ])

    header-MsgWithin : (id flags : ℕ) → MsgWithin (record zeroed { id = id; flags = flags })
    header-MsgWithin id flags = record { count = omega arith; question = omega arith; each = tt }

    parse_dns-Within : Within E ParsedWithin (parse_dns inet_ntop d len)
    unfolding parse_dns
    parse_dns-Within = elim (Bool-cases (ltb len 12)) [
      | inl cut ↦ rw cut tt
      | inr fits ↦ rw fits (
          field 0 _ (ground arith) (λ id. field 2 _ (ground arith) (λ flags.
            field 4 _ (ground arith) (λ qd. field 6 _ (ground arith) (λ an.
              Within-bind E (QuestionsWithin len) ParsedWithin
                (read_questions qd true d len 12 (record zeroed { id = id; flags = flags })) _
                (read_questions-Within qd true 12 _ (ground arith) (header-MsgWithin id flags))
                (elim [
                  | none ↦ λ h. tt
                  | some (off, m) ↦ λ h.
                      Within-bind E MsgWithin ParsedWithin (read_answers inet_ntop an d len off m) _
                        (read_answers-Within an off m h.1) (λ m' h'. h')
                ]))))))
    ]
      where
        field :
            (i : ℕ) (f : ℕ → Outcome (Option DnsMsg))
            → i + 2 ≤ len
            → ((v : ℕ) → Within E ParsedWithin (f v))
            → Within E ParsedWithin (be16 d i >>= f)
        field i f le next =
            Within-bind E (λ v. v < 2 ^ 16) ParsedWithin (be16 d i) f
              (Within-of_Returns E (λ v. v < 2 ^ 16) _ (be16_within d i (omega arith)))
              (λ v _. next v)

module _ (inet_ntop : Family → Bytes → Option Bytes) (d : Bytes) (len : ℕ)
    (inside : len ≤ length d) where
  -- Whatever a packet of at least `len` bytes holds, parse_dns reads no byte outside it, and a
  -- message that it returns holds at most 16 answers of at most 299 characters and a question of at
  -- most 255.
  pub parse_dns-Safe : Safe ParsedWithin (parse_dns inet_ntop d len)
  parse_dns-Safe =
      parse_dns-Within Unit d len inside
        (λ off size dst fits. read_name_within d len size off dst inside fits) inet_ntop

  -- parse_dns ends, and its result fits, on each packet in which no name is left spinning.
  pub parse_dns-Returns :
      ((off size : ℕ) (dst : Option Bytes)
        → Fits size dst
        → Returns (λ _. Unit {0}) (read_name d len size off dst))
      → Returns ParsedWithin (parse_dns inet_ntop d len)
  parse_dns-Returns ends =
      parse_dns-Within ⊥ d len inside
        (λ off size dst fits.
          Returns-of_Safe (ReadWithin off len size) _
            (read_name_within d len size off dst inside fits) (ends off size dst fits))
        inet_ntop

  -- On every packet of at least `len` bytes in which no byte could begin a compression pointer,
  -- parse_dns ends, reads no byte outside the packet, and returns a message that fits its arrays,
  -- if any.
  pub parse_dns-HasNoPointer : HasNoPointer d → Returns ParsedWithin (parse_dns inet_ntop d len)
  parse_dns-HasNoPointer no_jump =
      parse_dns-Returns
        (λ off size dst fits. read_name_forward d len size inside no_jump off dst fits)
