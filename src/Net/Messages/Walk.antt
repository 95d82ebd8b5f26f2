-- ===== src/Net/Messages/Walk.antt =====
-- The walk of process_nl_msgs of c/net.c: what it reads, and its rounds.
use tracep.Base.{
  All, Bool, Bool-cases, List, [], arith, false, inl, inr, length, ltb, lt→ltb, suc, true, zero, ℕ,
  ◌*◌, ◌+◌, ◌-◌, ◌<◌, ◌==◌, ◌^◌, ◌||◌, ◌∷◌, ◌≡◌, ◌≤◌,
}
use tracep.Exec.Netlink.{nlmsg_align}
use tracep.Exec.Netlink.Walk.{le32_within}
use tracep.Memory.{
  Bytes, Outcome, Returns-ok, Within, Within-bind, Within-of_Returns, fault, le32, ok, spin, ◌>>=◌,
}
use tracep.Net.Attrs.{le16}
use tracep.Net.Attrs.Within.{le16_within}
use tracep.Net.Messages.{
  is_create, is_huge, is_last, is_longer, left_of, minus32, msg_ct_delete, msg_ct_new, on_message,
  walk,
}

-- the lengths of the messages that the walk gets to
unfoldable pub lengths : ℕ → Bytes → ℕ → ℕ → List ℕ
lengths zero d off len = []
lengths (suc rounds) d off len = elim (is_huge len || ltb len 16) [
  | true ↦ []
  | false ↦ elim (le32 d off) [
    | fault ↦ []
    | spin ↦ []
    | ok mlen ↦ mlen ∷ (elim (ltb mlen 16 || is_longer mlen len || is_last (nlmsg_align mlen) len) [
      | true ↦ []
      | false ↦ lengths rounds d (off + nlmsg_align mlen) (left_of len (nlmsg_align mlen))
    ])
  ]
]

-- The length is not negative as an int.
abbrev pub Small : ℕ → Type 0
Small mlen = mlen < 2 ^ 31

module _ {S : Type 0} (on_event : Bool → Bool → Bytes → ℕ → ℕ → S → Outcome S) (E : Type 0)
    (Inv : S → Type 0) (d : Bytes) where
  -- The handler reads only the payload that it is given, and keeps the invariant.
  abbrev pub Handles : Type 0
  Handles =
      (is_new created : Bool) (at plen : ℕ) (s : S)
      → at + plen ≤ length d
      → Inv s
      → Within E Inv (on_event is_new created d at plen s)

  module _ (handles : Handles) where
    on_message-Within :
        (off mlen : ℕ) (s : S)
        → off + mlen ≤ length d
        → 16 ≤ mlen
        → Small mlen
        → Inv s
        → Within E Inv (on_message on_event d off mlen s)
    unfolding on_message
    on_message-Within off mlen s fits room small inv =
        Within-bind E (λ v. v < 2 ^ 16) Inv (le16 d (off + 4)) _
          (Within-of_Returns E (λ v. v < 2 ^ 16) _ (le16_within d (off + 4) (omega arith)))
          (λ t _. elim (Bool-cases (t == msg_ct_new || t == msg_ct_delete)) [
            | inr other ↦ rw other inv
            | inl ct ↦
                let plain : minus32 mlen 16 ≡ mlen - 16 = omega (arith, small) in
                rw ct (elim (Bool-cases (is_huge (minus32 mlen 16) || ltb (minus32 mlen 16) 4)) [
                  | inl short ↦ rw short inv
                  | inr long ↦
                      let enough : 20 ≤ mlen = ground (arith, long, plain) in
                      rw long (
                        Within-bind E (λ v. v < 2 ^ 16) Inv (le16 d (off + 6)) _
                          (Within-of_Returns E (λ v. v < 2 ^ 16) _
                            (le16_within d (off + 6) (omega arith)))
                          (λ flags _.
                            handles (t == msg_ct_new) (is_create flags) (off + 20)
                              (minus32 mlen 16 - 4) s (omega (arith, enough, plain)) inv))
                ])
          ])

    -- A round behind the read of the length, from what holds of the rounds that follow.
    round-Within :
        (rounds off len mlen : ℕ) (s : S)
        → off + len ≤ length d
        → length d ≤ 2 ^ 20
        → (is_huge len || ltb len 16) ≡ false
        → le32 d off ≡ ok mlen
        → All Small (lengths (suc rounds) d off len)
        → Inv s
        → ((off' len' : ℕ) (s' : S)
            → off' + len' ≤ length d
            → len' + 16 ≤ len
            → All Small (lengths rounds d off' len')
            → Inv s'
            → Within E Inv (walk on_event rounds d off' len' s'))
        → Within E Inv (walk on_event (suc rounds) d off len s)
    unfolding walk lengths
    round-Within rounds off len mlen s fits size long read small inv next =
        elim (Bool-cases (ltb mlen 16 || is_longer mlen len)) [
          | inl cut ↦ rw (long, walk, read, ◌>>=◌, cut) inv
          | inr good ↦
              let known : Small mlen = (rw (long, lengths, read, good) at small).0 in
              let low : 16 ≤ mlen = ground (arith, good) in
              let high : mlen ≤ len = ground (arith, good, lt→ltb mlen (2 ^ 31) known) in
              rw (long, walk, read, ◌>>=◌, good)
                (Within-bind E Inv Inv (on_message on_event d off mlen s) _
                  (on_message-Within off mlen s (omega arith) low known inv)
                  (λ s' inv'. elim (Bool-cases (is_last (nlmsg_align mlen) len)) [
                    | inl over ↦ rw over inv'
                    | inr more ↦
                        let step_small : ltb (nlmsg_align mlen) (2 ^ 31) ≡ true =
                          lt→ltb (nlmsg_align mlen) (2 ^ 31) (omega arith) in
                        let inside : nlmsg_align mlen < len = ground (arith, more, step_small) in
                        let rest : All Small (
                            lengths rounds d (off + nlmsg_align mlen)
                              (left_of len (nlmsg_align mlen))) =
                          (rw (long, lengths, read, good, more) at small).1 in
                        rw more (
                          next (off + nlmsg_align mlen) (left_of len (nlmsg_align mlen)) s'
                            (omega (arith, inside, size)) (omega (arith, inside, size, low)) rest
                            inv')
                  ]))
        ]

    pub walk-Within :
        (rounds off len : ℕ) (s : S)
        → off + len ≤ length d
        → length d ≤ 2 ^ 20
        → len < 16 * rounds
        → All Small (lengths rounds d off len)
        → Inv s
        → Within E Inv (walk on_event rounds d off len s)
    unfolding walk
    walk-Within zero off len s fits size lt small inv = absurd (omega arith)
    walk-Within (suc rounds) off len s fits size lt small inv =
        elim (Bool-cases (is_huge len || ltb len 16)) [
          | inl short ↦ rw (short, walk) inv
          | inr long ↦
              let room : 16 ≤ len = ground (arith, long) in
              let (mlen, read, _) =
                Returns-ok (λ v. v < 2 ^ 32) (le32 d off) (le32_within d off (omega arith)) in
              round-Within rounds off len mlen s fits size long read small inv
                (λ off' len' s' fits' less small' inv'.
                  walk-Within rounds off' len' s' fits' size (omega arith) small' inv')
        ]
