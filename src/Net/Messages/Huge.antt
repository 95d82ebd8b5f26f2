-- ===== src/Net/Messages/Huge.antt =====
-- process_nl_msgs of c/net.c on a message whose length is negative as an int: the guards do not
-- see it.
use mathlib.Core.Path.{ap₂}
use tracep.Base.{
  Bool, Bool-cases, List, [], arith, false, get_elem?, inl, inr, leb, leb→le, length, ltb, none,
  refl, suc, true, zero, ℕ, ◌*◌, ◌+◌, ◌-◌, ◌/◌, ◌<◌, ◌==◌, ◌^◌, ◌||◌, ◌∙◌, ◌∷◌, ◌≡◌, ◌≤◌, ◌⊎◌,
}
use tracep.Exec.Netlink.{nlmsg_align}
use tracep.Memory.{Bytes, Outcome, Returns-ok, fault, le32, ok, spin, ◌>>=◌}
use tracep.Net.Attrs.{le16}
use tracep.Net.Attrs.Within.{le16_within}
use tracep.Net.Events.{NetState, World}
use tracep.Net.Line.{NetOptions}
use tracep.Net.Messages.{
  is_huge, is_last, is_longer, left_of, minus32, msg_ct_delete, msg_ct_new, on_event, on_message,
  process_nl_msgs, walk,
}

get_elem?_outside : (d : Bytes) (i : ℕ) → length d ≤ i → get_elem? d i ≡ none
get_elem?_outside [] i h = refl
get_elem?_outside (x ∷ d) zero h = absurd (omega arith)
get_elem?_outside (x ∷ d) (suc i) h = get_elem?_outside d i (omega arith)

le32_outside : (d : Bytes) (i : ℕ) → length d ≤ i → le32 d i ≡ fault
unfolding le32
le32_outside d i h = ground (arith, get_elem?_outside d i h)

module _ {S : Type 0} (on_event : Bool → Bool → Bytes → ℕ → ℕ → S → Outcome S) (d : Bytes)
    (off len mlen : ℕ) (s : S) (inside : off + len ≤ length d) (room : 16 ≤ len)
    (read : le32 d off ≡ ok mlen) where
  -- The message is skipped.
  on_message_huge : 2 ^ 31 + 16 ≤ mlen → mlen < 2 ^ 32 → on_message on_event d off mlen s ≡ ok s
  unfolding on_message
  on_message_huge huge top =
      let (t, type_read, _) =
        Returns-ok (λ v. v < 2 ^ 16) (le16 d (off + 4)) (le16_within d (off + 4) (omega arith)) in
      skipped t type_read
    where
      skipped : (t : ℕ) → le16 d (off + 4) ≡ ok t → on_message on_event d off mlen s ≡ ok s
      skipped t e = elim (Bool-cases (t == msg_ct_new || t == msg_ct_delete)) [
        | inl ct ↦
            let negative : (is_huge (minus32 mlen 16) || ltb (minus32 mlen 16) 4) ≡ true =
              ground (arith, huge, top) in
            rw (e, on_message, ◌>>=◌, ct, negative) refl
        | inr other ↦ rw (e, on_message, ◌>>=◌, other) refl
      ]

  round_huge :
      (rounds : ℕ)
      → len < 2 ^ 31
      → 2 ^ 31 + 16 ≤ mlen
      → mlen < 2 ^ 32
      → is_last (nlmsg_align mlen) len ≡ false
      → walk on_event (suc rounds) d off len s
        ≡ walk on_event rounds d (off + nlmsg_align mlen) (left_of len (nlmsg_align mlen)) s
  unfolding walk
  round_huge rounds small huge top on =
      let long : (is_huge len || ltb len 16) ≡ false = ground (arith, small, room) in
      let good : (ltb mlen 16 || is_longer mlen len) ≡ false = ground (arith, huge) in
      rw (long, walk, read, ◌>>=◌, good, on_message_huge huge top, on) refl

  -- A length that rounds up to 2 ^ 32 moves nothing, so the walk never ends.
  walk_stays :
      len < 2 ^ 31
      → 2 ^ 32 - 3 ≤ mlen
      → mlen < 2 ^ 32
      → (rounds : ℕ) → walk on_event rounds d off len s ≡ spin
  unfolding walk
  walk_stays small low top zero = refl
  walk_stays small low top (suc rounds) =
      let still : nlmsg_align mlen ≡ 0 = omega arith in
      let here : off + nlmsg_align mlen ≡ off = omega (arith, still) in
      let same : left_of len (nlmsg_align mlen) ≡ len = rw still (omega arith) in
      round_huge rounds small (omega arith) top (rw still (ground arith))
      ∙ (ap₂ (λ a b. walk on_event rounds d a b s) here same ∙ walk_stays small low top rounds)

  module _ (size : length d ≤ 2 ^ 20) (low : 2 ^ 31 + 16 ≤ mlen) where
    on_from_huge :
        (rounds : ℕ)
        → mlen ≤ 2 ^ 32 - 4
        → walk on_event (suc rounds) d off len s
          ≡ walk on_event rounds d (off + nlmsg_align mlen) (left_of len (nlmsg_align mlen)) s
    on_from_huge rounds high =
        let huge : is_huge (nlmsg_align mlen) ≡ true = ground arith in
        round_huge rounds (omega arith) low (omega arith) (rw huge refl)

    -- What is left wraps around to a negative number, and the walk ends.
    walk_ends :
        mlen ≤ 2 ^ 31 + len / 4 * 4
        → (rounds : ℕ) → walk on_event (suc (suc rounds)) d off len s ≡ ok s
    unfolding walk
    walk_ends high rounds =
        let negative : is_huge (left_of len (nlmsg_align mlen)) ≡ true = ground arith in
        on_from_huge (suc rounds) (omega arith) ∙ rw (walk, negative) refl

    -- Any other such length takes the walk out of the buffer.
    walk_leaves :
        2 ^ 31 + len / 4 * 4 < mlen
        → mlen ≤ 2 ^ 32 - 4
        → (rounds : ℕ) → walk on_event (suc (suc rounds)) d off len s ≡ fault
    unfolding walk
    walk_leaves beyond high rounds =
        let far : 2 ^ 31 ≤ nlmsg_align mlen = omega arith in
        let left = left_of len (nlmsg_align mlen) in
        let long : (is_huge left || ltb left 16) ≡ false = ground arith in
        let out = le32_outside d (off + nlmsg_align mlen) (omega (arith, far)) in
        on_from_huge (suc rounds) high ∙ rw (walk, long, out) refl

module _ (inet_ntop : Bytes → Bytes) (time_text : ℕ → Bytes) (watch : List ℕ) (o : NetOptions)
    (w : World) (d : Bytes) (s : NetState) where
  abbrev Result : ℕ → Outcome NetState
  Result rounds = process_nl_msgs inet_ntop time_text watch o w rounds d s

  -- What becomes of a buffer whose first message has such a length.
  abbrev pub HugeEnds : ℕ → Type 0
  HugeEnds mlen =
      ((mlen ≤ 2 ^ 31 + length d / 4 * 4) × ((rounds : ℕ) → Result (suc (suc rounds)) ≡ ok s))
      ⊎ (((2 ^ 31 + length d / 4 * 4 < mlen)
            × (mlen ≤ 2 ^ 32 - 4)
            × ((rounds : ℕ) → Result (suc (suc rounds)) ≡ fault))
          ⊎ ((2 ^ 32 - 4 < mlen) × ((rounds : ℕ) → Result rounds ≡ spin)))

  -- On a buffer of 16 up to 2 ^ 20 bytes whose first message has a length of 2 ^ 31 + 16 or more,
  -- process_nl_msgs has one of three ends. Up to 2 ^ 31 and the number of the bytes, rounded down
  -- to a multiple of 4, it returns within two rounds and changes nothing, whatever follows; above
  -- that, up to 2 ^ 32 - 4, it reads outside the buffer, from two rounds on; and for the three
  -- lengths above it never ends.
  pub process_nl_msgs_huge :
      (mlen : ℕ)
      → 16 ≤ length d
      → length d ≤ 2 ^ 20
      → le32 d 0 ≡ ok mlen
      → 2 ^ 31 + 16 ≤ mlen
      → mlen < 2 ^ 32
      → HugeEnds mlen
  unfolding process_nl_msgs
  process_nl_msgs_huge mlen room size read low top =
      let event = on_event inet_ntop time_text watch o w in
      elim (Bool-cases (leb mlen (2 ^ 31 + length d / 4 * 4))) [
        | inl le ↦
            let near = leb→le mlen (2 ^ 31 + length d / 4 * 4) le in
            inl (near, walk_ends event d 0 (length d) mlen s (omega arith) room read size low near)
        | inr more ↦
            let beyond : 2 ^ 31 + length d / 4 * 4 < mlen = ground (arith, more) in
            elim (Bool-cases (leb mlen (2 ^ 32 - 4))) [
              | inl le ↦
                  let high = leb→le mlen (2 ^ 32 - 4) le in
                  inr (
                    inl (
                      beyond,
                      high,
                      walk_leaves event d 0 (length d) mlen s (omega arith) room read size low
                          beyond high,
                    ))
              | inr top_four ↦
                  let last : 2 ^ 32 - 4 < mlen = ground (arith, top_four) in
                  inr (
                    inr (
                      last,
                      walk_stays event d 0 (length d) mlen s (omega arith) room read
                          (omega (arith, size)) (omega (arith, last)) top,
                    ))
            ]
      ]
