-- ===== src/Net/Attrs/Within.antt =====
-- parse_nla, parse_tuple and parse_tcp_state of c/net.c: what they read, and the sizes of the result.

use tracep.Base.{
  Bool-cases, Option-cases, arith, get_elem?_within, inl, inr, length, ltb, ltb→ge, none, refl, set,
  some, suc, zero, ℕ, ◌%◌, ◌&&◌, ◌*◌, ◌+◌, ◌-◌, ◌/◌, ◌<◌, ◌==◌, ◌^◌, ◌||◌, ◌∙◌, ◌≡◌, ◌≤◌, ◌⊎◌,
}
use tracep.Dns.Message.{slice}
use tracep.Dns.Message.Stored.{slice_within}
use tracep.Memory.{Bytes, Returns, Within-bind, Within-map, be16_within, load_within}
use tracep.Net.Attrs.{
  NlaSet, add_attr, address_attr, aligned, byte_attr, le16, nla_loop, nla_max_type, parse_nla,
  port_attr,
}

-- Each attribute of the set ends at `lim` at the latest.
abbrev pub AttrsWithin : ℕ → NlaSet → Type 0
AttrsWithin lim set = (t a l : ℕ) → set t ≡ some (a, l) → a + l ≤ lim

pub le16_within : (d : Bytes) (i : ℕ) → i + 2 ≤ length d → Returns (λ v. v < 2 ^ 16) (le16 d i)
unfolding le16
le16_within d i h = ground (arith, get_elem?_within d i, get_elem?_within d (i + 1))

add_attr-AttrsWithin :
    (lim : ℕ) (set : NlaSet) (typ a l : ℕ)
    → AttrsWithin lim set
    → a + l ≤ lim
    → AttrsWithin lim (add_attr set typ (a, l))
unfolding add_attr
add_attr-AttrsWithin lim set typ a l inv fits t b m e =
    elim (Bool-cases (t == typ && ltb typ nla_max_type)) [
      | inr other ↦ inv t b m (rw (other, add_attr) at e)
      | inl here ↦ elim (Option-cases (set t)) [
        | inl new ↦
            let e' : some (a, l) ≡ some (b, m) = rw (here, add_attr, new) at e in ground (arith, e')
        | inr (v, old) ↦
            let e' : some v ≡ some (b, m) = rw (here, add_attr, old) at e in inv t b m (old ∙ e')
      ]
    ]

module _ (d : Bytes) where
  nla_loop-AttrsWithin :
      (rounds off n lim : ℕ) (set : NlaSet)
      → n < 4 * rounds
      → off + n ≤ lim
      → lim ≤ length d
      → AttrsWithin lim set
      → Returns (AttrsWithin lim) (nla_loop rounds d off n set)
  unfolding nla_loop
  nla_loop-AttrsWithin zero off n lim set lt fits inside inv = absurd (omega arith)
  nla_loop-AttrsWithin (suc rounds) off n lim set lt fits inside inv = elim (Bool-cases (ltb n 4)) [
    | inl over ↦ rw (over, nla_loop) inv
    | inr more ↦
        let room : 4 ≤ n = ltb→ge n 4 more in
        rw (more, nla_loop)
          (Within-bind ⊥ (λ v. v < 2 ^ 16) (AttrsWithin lim) (le16 d off) _
            (le16_within d off (omega arith))
            (λ len _.
              Within-bind ⊥ (λ v. v < 2 ^ 16) (AttrsWithin lim) (le16 d (off + 2)) _
                (le16_within d (off + 2) (omega arith))
                (λ typ _. elim (Bool-cases (ltb len 4 || ltb n len)) [
                  | inl cut ↦ rw cut inv
                  | inr good ↦
                      let low : 4 ≤ len = ground (arith, good) in
                      let high : len ≤ n = ground (arith, good) in
                      let inv' =
                        add_attr-AttrsWithin lim set (typ % 2 ^ 14) (off + 4) (len - 4) inv
                          (omega arith) in
                      rw good (elim (Bool-cases (ltb n (aligned len))) [
                        | inl last ↦ rw last inv'
                        | inr next ↦
                            let stays = ltb→ge n (aligned len) next in
                            rw next (
                              nla_loop-AttrsWithin rounds (off + aligned len) (n - aligned len) lim
                                _ (omega arith) (omega arith) inside inv')
                      ])
                ])))
  ]

  pub parse_nla-AttrsWithin :
      (off n : ℕ) → off + n ≤ length d → Returns (AttrsWithin (length d)) (parse_nla d off n)
  unfolding parse_nla
  parse_nla-AttrsWithin off n fits =
      nla_loop-AttrsWithin (n / 4 + 1) off n (length d) (λ t. none) (omega arith) fits (omega arith)
        (λ t a l e. cc)

  module _ (set : NlaSet) (inv : AttrsWithin (length d) set) where
    pub address_attr_within :
        (t size : ℕ) (old : Bytes)
        → Returns (λ r. (length r ≡ size) ⊎ (r ≡ old)) (address_attr d set t size old)
    unfolding address_attr
    address_attr_within t size old = elim (Option-cases (set t)) [
      | inl absent ↦ rw (absent, address_attr) (inr refl)
      | inr ((off, len), present) ↦
          let ends = inv t off len present in
          elim (Bool-cases (len == size)) [
            | inl fits ↦
                rw (present, address_attr, fits)
                  (Within-map (λ r. length r ≡ size) _ (slice size d off) (λ r h. inl h)
                    (slice_within size d off (ground (arith, ends))))
            | inr other ↦ rw (present, address_attr, other) (inr refl)
          ]
    ]

    pub byte_attr_within : (t : ℕ) → Returns (λ _. Unit {0}) (byte_attr d set t)
    unfolding byte_attr
    byte_attr_within t = elim (Option-cases (set t)) [
      | inl absent ↦ rw (absent, byte_attr) tt
      | inr ((off, len), present) ↦
          let ends = inv t off len present in
          elim (Bool-cases (ltb len 1)) [
            | inl empty ↦ rw (present, byte_attr, empty) tt
            | inr full ↦
                rw (present, byte_attr, full)
                  (load_within d off (ground (arith, ends, ltb→ge len 1 full)))
          ]
    ]

    pub port_attr_within : (t : ℕ) → Returns (λ v. v < 2 ^ 16) (port_attr d set t)
    unfolding port_attr
    port_attr_within t = elim (Option-cases (set t)) [
      | inl absent ↦ rw (absent, port_attr) (omega arith)
      | inr ((off, len), present) ↦
          let ends = inv t off len present in
          elim (Bool-cases (ltb len 2)) [
            | inl short ↦ rw (present, port_attr, short) (omega arith)
            | inr full ↦
                rw (present, port_attr, full)
                  (be16_within d off (omega (arith, ends, ltb→ge len 2 full)))
          ]
    ]
