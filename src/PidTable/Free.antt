-- ===== src/PidTable/Free.antt =====
-- The free slots of the probes: where piddb_get stops, and what a write leaves of them.
use tracep.Base.{
  Bool-cases, Nat-cases, Option-cases, ap, arith, false, inl, inr, ltb, ltb→ge, ltb→lt, none, some,
  suc, true, zero, ℕ, ◌%◌, ◌+◌, ◌-◌, ◌<◌, ◌==◌, ◌∙◌, ◌≡◌, ◌≢◌, ◌≤◌, ◌⊎◌,
}
use tracep.PidTable.{Slots, pid_hash, probe_get, put_slot, table_cap}
use tracep.PidTable.Probe.{Holds, Reached}

-- The distance from slot `i` forward to slot `e`.
abbrev pub ahead : ℕ → ℕ → ℕ
ahead i e = (e + table_cap - i % table_cap) % table_cap

module _ {V : Type 0} where
  pub probe_get_old :
      (n : ℕ) (t : Slots V) (q i p : ℕ)
      → probe_get n t q i ≡ some (p, false)
      → (v : V) × (p < table_cap) × (t p ≡ some (q, v))
  unfolding probe_get
  probe_get_old zero t q i p e = cc
  probe_get_old (suc n) t q i p e = elim (Option-cases (t (i % table_cap))) [
    | inl free ↦ cc (rw (free, probe_get) at e)
    | inr ((p', v), used) ↦ elim (Bool-cases (p' == q)) [
      | inl same ↦ (v, ground arith, ground arith)
      | inr other ↦ probe_get_old n t q (i + 1) p (ground arith)
    ]
  ]

  pub probe_get_new :
      (n : ℕ) (t : Slots V) (q i p : ℕ)
      → probe_get n t q i ≡ some (p, true)
      → (d : ℕ) × (d < n)
        × ((i + d) % table_cap ≡ p)
        × (t p ≡ none)
        × ((m : ℕ) → m < d → t ((i + m) % table_cap) ≢ none)
  unfolding probe_get
  probe_get_new zero t q i p e = cc
  probe_get_new (suc n) t q i p e = elim (Option-cases (t (i % table_cap))) [
    | inl free ↦
        (0, omega arith, ground (arith, free), ground (arith, free), λ m h. absurd (omega arith))
    | inr ((p', v), used) ↦ elim (Bool-cases (p' == q)) [
      | inl same ↦ absurd (ground arith)
      | inr other ↦
          let (d, lt, at_p, free, path) = probe_get_new n t q (i + 1) p (ground arith) in
          (
            d + 1,
            omega arith,
            omega arith,
            free,
            λ m h. elim (Nat-cases m) [
              | inl first ↦ λ e'.
                  let here : (i + m) % table_cap ≡ i % table_cap = omega arith in
                  cc (ap t here, used)
              | inr (m', later) ↦ λ e'.
                  let there : (i + 1 + m') % table_cap ≡ (i + m) % table_cap = omega arith in
                  path m' (omega arith) (ap t there ∙ e')
            ],
          )
    ]
  ]

  -- A free slot among the probes that are left ends the loop.
  pub probe_get_ends :
      (n d : ℕ) (t : Slots V) (q i : ℕ)
      → d < n
      → t ((i + d) % table_cap) ≡ none
      → probe_get n t q i ≢ none
  unfolding probe_get
  probe_get_ends zero d t q i lt free = elim lt [ ]
  probe_get_ends (suc n) d t q i lt free = elim (Option-cases (t (i % table_cap))) [
    | inl here ↦ rw (here, probe_get) (λ e. cc)
    | inr ((p, v), used) ↦ elim (Bool-cases (p == q)) [
      | inl same ↦ λ e. ground arith
      | inr other ↦ λ e. elim (Nat-cases d) [
        | inl first ↦
            let here : (i + d) % table_cap ≡ i % table_cap = omega arith in cc (ap t here, used)
        | inr (d', later) ↦
            let there : (i + 1 + d') % table_cap ≡ (i + d) % table_cap = omega arith in
            probe_get_ends n d' t q (i + 1) (omega arith) (ap t there ∙ free) (ground arith)
      ]
    ]
  ]

  -- The probes of a pid that the table does not hold end at the first free slot.
  pub probe_get_absent :
      (t : Slots V) (q d : ℕ)
      → ((v : V) → ¬ Holds t q v)
      → d < table_cap
      → t ((pid_hash q + d) % table_cap) ≡ none
      → (c : ℕ) × (c ≤ d)
        × (probe_get table_cap t q (pid_hash q) ≡ some ((pid_hash q + c) % table_cap, true))
        × (t ((pid_hash q + c) % table_cap) ≡ none)
        × ((m : ℕ) → m < c → t ((pid_hash q + m) % table_cap) ≢ none)
  probe_get_absent t q d absent lt free =
      elim (Option-cases (probe_get table_cap t q (pid_hash q))) [
        | inl full ↦ absurd (probe_get_ends table_cap d t q (pid_hash q) lt free full)
        | inr ((p, false), e) ↦
            let (v, lt', held) = probe_get_old table_cap t q (pid_hash q) p e in
            absurd (absent v (p, lt', held))
        | inr ((p, true), e) ↦
            let (c, lt', at_p, free', path) = probe_get_new table_cap t q (pid_hash q) p e in
            (
              c,
              elim (Bool-cases (ltb d c)) [
                | inl early ↦ absurd (path d (ltb→lt d c early) free)
                | inr late ↦ ltb→ge d c late
              ],
              rw at_p e,
              rw at_p free',
              path,
            )
      ]

  pub put_slot-some :
      (t : Slots V) (p q i r : ℕ) (v w : V)
      → put_slot t p (some (q, v)) i ≡ some (r, w)
      → ((i ≡ p) × (q ≡ r) × (v ≡ w)) ⊎ ((i ≢ p) × (t i ≡ some (r, w)))
  put_slot-some t p q i r v w e = elim (Bool-cases (i == p)) [
    | inl same ↦ inl (ground arith, ground arith, ground arith)
    | inr other ↦ inr (ground arith, ground arith)
  ]

  pub put_slot-none :
      (t : Slots V) (p i r : ℕ) (w : V)
      → put_slot t p none i ≡ some (r, w)
      → (i ≢ p) × (t i ≡ some (r, w))
  put_slot-none t p i r w e = (ground arith, ground arith)

  -- Writing into a free slot takes no other slot from the probes.
  pub Reached-put_slot :
      (t : Slots V) (p q i : ℕ) (x : ℕ × V) → Reached t q i → Reached (put_slot t p (some x)) q i
  Reached-put_slot t p q i x (d, lt, at_i, path) = (d, lt, at_i, λ k h e. ground (arith, path k h))
