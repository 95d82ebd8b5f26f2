-- ===== src/Net/Attrs/Tuple.antt =====
-- parse_tuple and parse_tcp_state of c/net.c as a whole.

use mathlib.Core.Option.{some_inj}
use mathlib.Core.Path.{subst}
use tracep.Base.{
  Bool-cases, Option, Option-cases, [], arith, false, inl, inr, length, none, refl, some, ℕ, ◌+◌,
  ◌<◌, ◌==◌, ◌^◌, ◌||◌, ◌≡◌, ◌≤◌, ◌⊎◌,
}
use tracep.Memory.{Bytes, Returns, Within-bind}
use tracep.Net.Attrs.{
  ConnTuple, NlaSet, address_attr, byte_attr, nested, parse_nla, parse_tcp_state, parse_tuple,
  port_attr, read_addresses, read_ports,
}
use tracep.Net.Attrs.Within.{
  AttrsWithin, address_attr_within, byte_attr_within, parse_nla-AttrsWithin, port_attr_within,
}

-- the length of an address of either family
abbrev pub IsAddress : Bytes → Type 0
IsAddress a = (length a ≡ 4) ⊎ (length a ≡ 16)

abbrev MaybeAddress : Bytes → Type 0
MaybeAddress a = (length a ≡ 0) ⊎ IsAddress a

-- Both addresses have a length that one has, and the ports 16 bits.
abbrev pub TupleWithin : Option ConnTuple → Type 0
TupleWithin none = Unit
TupleWithin (some t) =
    IsAddress t.src_ip × IsAddress t.dst_ip × (t.src_port < 2 ^ 16) × (t.dst_port < 2 ^ 16)

both :
    (a b : Bytes)
    → MaybeAddress a
    → MaybeAddress b
    → (length a == 0 || length b == 0) ≡ false
    → IsAddress a × IsAddress b
both a b (inl e) hb h = absurd (ground (arith, e, h))
both a b (inr x) (inl e) h = absurd (ground (arith, e, h))
both a b (inr x) (inr y) h = (x, y)

four : (r old : Bytes) → ((length r ≡ 4) ⊎ (r ≡ old)) → MaybeAddress old → MaybeAddress r
four r old (inl e) h = inr (inl e)
four r old (inr e) h = rw e h

sixteen : (r old : Bytes) → ((length r ≡ 16) ⊎ (r ≡ old)) → MaybeAddress old → MaybeAddress r
sixteen r old (inl e) h = inr (inr e)
sixteen r old (inr e) h = rw e h

-- what address_attr gives
abbrev Attr : ℕ → Bytes → Bytes → Type 0
Attr size old r = (length r ≡ size) ⊎ (r ≡ old)

module _ (d : Bytes) where
  abbrev Held : NlaSet → Type 0
  Held = AttrsWithin (length d)

  abbrev Two : Bytes × Bytes → Type 0
  Two r = MaybeAddress r.0 × MaybeAddress r.1

  abbrev Ports : ℕ × ℕ × ℕ → Type 0
  Ports r = (r.1 < 2 ^ 16) × (r.2 < 2 ^ 16)

  read_addresses-MaybeAddress : (ta : NlaSet) → Held ta → Returns Two (read_addresses d ta)
  unfolding read_addresses
  read_addresses-MaybeAddress ta inv = elim (Option-cases (ta 1)) [
    | inl absent ↦ rw (absent, read_addresses) (inl refl, inl refl)
    | inr ((off, len), present) ↦
        rw (present, read_addresses)
          (Within-bind ⊥ Held Two (parse_nla d off len) _
            (parse_nla-AttrsWithin d off len (inv 1 off len present))
            (λ ia held.
              Within-bind ⊥ (Attr 4 []) Two (address_attr d ia 1 4 []) _
                (address_attr_within d ia held 1 4 [])
                (λ s4 hs.
                  Within-bind ⊥ (Attr 4 []) Two (address_attr d ia 2 4 []) _
                    (address_attr_within d ia held 2 4 [])
                    (λ d4 hd.
                      Within-bind ⊥ (Attr 16 s4) Two (address_attr d ia 3 16 s4) _
                        (address_attr_within d ia held 3 16 s4)
                        (λ s16 hs'.
                          Within-bind ⊥ (Attr 16 d4) Two (address_attr d ia 4 16 d4) _
                            (address_attr_within d ia held 4 16 d4)
                            (λ d16 hd'. (
                              sixteen s16 s4 hs' (four s4 [] hs (inl refl)),
                              sixteen d16 d4 hd' (four d4 [] hd (inl refl)),
                            )))))))
  ]

  read_ports_within : (ta : NlaSet) → Held ta → Returns Ports (read_ports d ta)
  unfolding read_ports
  read_ports_within ta inv = elim (Option-cases (ta 2)) [
    | inl absent ↦ rw (absent, read_ports) (omega arith)
    | inr ((off, len), present) ↦
        rw (present, read_ports)
          (Within-bind ⊥ Held Ports (parse_nla d off len) _
            (parse_nla-AttrsWithin d off len (inv 2 off len present))
            (λ pa held.
              Within-bind ⊥ (λ _. Unit {0}) Ports (byte_attr d pa 1) _
                (byte_attr_within d pa held 1)
                (λ proto _.
                  Within-bind ⊥ (λ v. v < 2 ^ 16) Ports (port_attr d pa 2) _
                    (port_attr_within d pa held 2)
                    (λ src hs.
                      Within-bind ⊥ (λ v. v < 2 ^ 16) Ports (port_attr d pa 3) _
                        (port_attr_within d pa held 3) (λ dst hd. (hs, hd))))))
  ]

  -- parse_tuple reads only the payload and ends, whatever the bytes are; a tuple that it gives has
  -- two addresses of 4 or of 16 bytes each, and ports of 16 bits.
  pub parse_tuple-TupleWithin :
      (at plen : ℕ) → at + plen ≤ length d → Returns TupleWithin (parse_tuple d at plen)
  unfolding parse_tuple
  parse_tuple-TupleWithin at plen fits =
      Within-bind ⊥ Held TupleWithin (parse_nla d at plen) _ (parse_nla-AttrsWithin d at plen fits)
        (λ top held. elim (Option-cases (top 1)) [
          | inl absent ↦ rw absent tt
          | inr ((off, len), present) ↦ rw present (
              Within-bind ⊥ Held TupleWithin (parse_nla d off len) _
                (parse_nla-AttrsWithin d off len (held 1 off len present))
                (λ ta inner.
                  Within-bind ⊥ Two TupleWithin (read_addresses d ta) _
                    (read_addresses-MaybeAddress ta inner)
                    (λ ips hips.
                      Within-bind ⊥ Ports TupleWithin (read_ports d ta) _
                        (read_ports_within ta inner)
                        (λ ports hports.
                          elim (Bool-cases (length ips.0 == 0 || length ips.1 == 0)) [
                            | inl unset ↦ rw unset tt
                            | inr given ↦ rw given (
                                let (a, b) = both ips.0 ips.1 hips.0 hips.1 given in
                                (a, b, hports.0, hports.1))
                          ]))))
        ])

  abbrev HeldIn : Option NlaSet → Type 0
  HeldIn o = (inner : NlaSet) → o ≡ some inner → Held inner

  nested-AttrsWithin : (s : NlaSet) (t : ℕ) → Held s → Returns HeldIn (nested d s t)
  unfolding nested
  nested-AttrsWithin s t held = elim (Option-cases (s t)) [
    | inl absent ↦ rw (absent, nested) (λ inner e. cc)
    | inr ((off, len), present) ↦
        rw (present, nested)
          (Within-bind ⊥ Held HeldIn (parse_nla d off len) _
            (parse_nla-AttrsWithin d off len (held t off len present))
            (λ inner h inner' e. subst Held (some_inj.0 e) h))
  ]

  pub parse_tcp_state_within :
      (at plen : ℕ) → at + plen ≤ length d → Returns (λ _. Unit {0}) (parse_tcp_state d at plen)
  unfolding parse_tcp_state
  parse_tcp_state_within at plen fits =
      Within-bind ⊥ Held (λ _. Unit {0}) (parse_nla d at plen) _
        (parse_nla-AttrsWithin d at plen fits)
        (λ top held.
          Within-bind ⊥ HeldIn (λ _. Unit {0}) (nested d top 4) _ (nested-AttrsWithin top 4 held)
            (elim [
              | none ↦ λ h. tt
              | some pi ↦ λ h.
                  Within-bind ⊥ HeldIn (λ _. Unit {0}) (nested d pi 1) _
                    (nested-AttrsWithin pi 1 (h pi refl))
                    (elim [
                      | none ↦ λ h'. tt
                      | some tcp ↦ λ h'. byte_attr_within d tcp (h' tcp refl) 1
                    ])
            ]))
