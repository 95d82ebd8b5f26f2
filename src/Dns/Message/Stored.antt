-- ===== src/Dns/Message/Stored.antt =====
-- add_answer and the cases of parse_dns in c/dns.c: what they store, against the arrays of dns_msg.
use Prim.Native.Nat.{min}
use tracep.Base.{
  All, All-concat, Bool-cases, Option, [], arith, get_elem?_within, inl, inr, leb, length,
  length-append, length-take, ltb, none, refl, some, suc, take, zero, ℕ, ◌++◌, ◌+◌, ◌-◌, ◌<◌, ◌==◌,
  ◌∷◌, ◌≡◌, ◌≤◌,
}
use tracep.Dns.Message.{DnsMsg, Family, add_answer, address_answer, max_ans, slice, txt_strings}
use tracep.Memory.{Bytes, Returns, Within-bind, cstr, load, load_within, print_s}

-- The sizes that the arrays of dns_msg and the buffer of add_answer allow.
pub record MsgWithin (m : DnsMsg) : Type 0 where
  pub count : length m.answers ≤ max_ans
  pub question : length m.question ≤ 255
  pub each : All (λ (a : Bytes). length a ≤ 299) m.answers

pub length-print_s : (size : ℕ) (s : Bytes) → length (print_s size s) ≤ size - 1
unfolding print_s
length-print_s size s = omega (arith, length-take (size - 1) (cstr s))

pub add_answer-MsgWithin :
    (m : DnsMsg) (pre_text val : Bytes) → MsgWithin m → MsgWithin (add_answer m pre_text val)
unfolding add_answer
add_answer-MsgWithin m pre_text val h = elim (Bool-cases (leb max_ans (length m.answers))) [
  | inl full ↦ rw full h
  | inr room ↦ rw room (record {
    count = ground (arith, length-append m.answers (take 299 (pre_text ++ cstr val) ∷ []));
    question = h.question;
    each =
        All-concat (λ (a : Bytes). length a ≤ 299) m.answers _ h.each
          (omega (arith, length-take 299 (pre_text ++ cstr val)));
  })
]

pub slice_within :
    (n : ℕ) (d : Bytes) (off : ℕ) → off + n ≤ length d → Returns (λ r. length r ≡ n) (slice n d off)
unfolding slice
slice_within zero d off h = refl
slice_within (suc n) d off h =
    ground (arith, get_elem?_within d off, slice_within n d (off + 1) (omega arith))

pub txt_strings_within :
    (rounds : ℕ) (d : Bytes) (rdoff rdlen p : ℕ) (m : DnsMsg)
    → rdoff + rdlen ≤ length d
    → p ≤ rdlen
    → rdlen < rounds + p
    → MsgWithin m
    → Returns MsgWithin (txt_strings rounds d rdoff rdlen p m)
unfolding txt_strings
txt_strings_within zero d rdoff rdlen p m inside le fuel h = absurd (omega arith)
txt_strings_within (suc rounds) d rdoff rdlen p m inside le fuel h =
    elim (Bool-cases (ltb p rdlen)) [
      | inr done ↦ rw (done, txt_strings) h
      | inl more ↦
          rw (more, txt_strings)
            (Within-bind ⊥ (λ _. Unit) MsgWithin (load d (rdoff + p)) _
              (load_within d (rdoff + p) (ground arith))
              (λ sl _. elim (Bool-cases (ltb rdlen (p + 1 + sl))) [
                | inl cut ↦ rw cut h
                | inr fits ↦ rw fits (
                    Within-bind ⊥ (λ t. length t ≡ min sl 299) MsgWithin
                      (slice (min sl 299) d (rdoff + (p + 1))) _
                      (slice_within (min sl 299) d (rdoff + (p + 1)) (ground arith))
                      (λ t _.
                        txt_strings_within rounds d rdoff rdlen (p + 1 + sl) (add_answer m [] t)
                          inside (ground arith) (ground arith) (add_answer-MsgWithin m [] t h)))
              ]))
    ]

pub answered_within :
    (o : Option Bytes) (m : DnsMsg)
    → MsgWithin m
    → MsgWithin (elim o [ none ↦ m | some ip ↦ add_answer m [] ip ])
answered_within none m h = h
answered_within (some ip) m h = add_answer-MsgWithin m [] ip h

module _ (inet_ntop : Family → Bytes → Option Bytes) where
  pub address_answer_within :
      (family : Family) (size : ℕ) (d : Bytes) (rdoff rdlen : ℕ) (m : DnsMsg)
      → rdoff + rdlen ≤ length d
      → MsgWithin m
      → Returns MsgWithin (address_answer inet_ntop family size d rdoff rdlen m)
  unfolding address_answer
  address_answer_within family size d rdoff rdlen m inside h = elim (Bool-cases (rdlen == size)) [
    | inr other ↦ rw other h
    | inl same ↦ rw same (
        Within-bind ⊥ (λ r. length r ≡ size) MsgWithin (slice size d rdoff) _
          (slice_within size d rdoff (ground arith))
          (λ rd _. answered_within (inet_ntop family rd) m h))
  ]
