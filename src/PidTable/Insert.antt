-- ===== src/PidTable/Insert.antt =====
-- piddb_get of c/exec.c.
use mathlib.Core.Option
use tracep.Base.{
  ==_iff, Bool-cases, Option-cases, ap, arith, false, inl, inr, none, refl, some, suc, sym, true,
  zero, ℕ, ◌%◌, ◌+◌, ◌<◌, ◌==◌, ◌↔◌, ◌∙◌, ◌≡◌, ◌≢◌,
}
use tracep.PidTable.{
  Got, Slots, Table, find, get, pid_hash, probe_find, probe_get, put_slot, settle, table_cap,
}
use tracep.PidTable.Free.{Reached-put_slot, ahead, probe_get_absent, put_slot-some}
use tracep.PidTable.Probe.{
  Holds, Holds-of_entry, IsTable, IsUnique, Reached, entry, entry_eq, entry-of_Holds, find_complete,
}

module _ {V : Type 0} where
  module _ (t : Slots V) (q c p : ℕ) (v : V) (inv : IsUnique t) (absent : (w : V) → ¬ Holds t q w)
      (lt : c < table_cap) (at_p : (pid_hash q + c) % table_cap ≡ p) (free : t p ≡ none)
      (path : (m : ℕ) → m < c → t ((pid_hash q + m) % table_cap) ≢ none) where
    pub put_slot-IsUnique : IsUnique (put_slot t p (some (q, v)))
    put_slot-IsUnique i j r w x hi hj ei ej = elim (put_slot-some t p q i r v w ei) [
      | inl (at_i, qi, _) ↦ elim (put_slot-some t p q j r v x ej) [
        | inl (at_j, _, _) ↦ at_i ∙ sym at_j
        | inr (_, ej') ↦ absurd (absent x (j, hj, rw qi ej'))
      ]
      | inr (_, ei') ↦ elim (put_slot-some t p q j r v x ej) [
        | inl (at_j, qj, _) ↦ absurd (absent w (i, hi, rw qj ei'))
        | inr (_, ej') ↦ inv i j r w x hi hj ei' ej'
      ]
    ]

    pub put_slot-Reached : Reached (put_slot t p (some (q, v))) q p
    put_slot-Reached = (c, lt, at_p, λ k h e. ground (arith, path k h))

  -- A new entry in the first free slot of its probes keeps the invariant.
  pub insert-IsTable :
      (t : Slots V) (q c p : ℕ) (v : V)
      → IsTable t
      → ((w : V) → ¬ Holds t q w)
      → c < table_cap
      → (pid_hash q + c) % table_cap ≡ p
      → t p ≡ none
      → ((m : ℕ) → m < c → t ((pid_hash q + m) % table_cap) ≢ none)
      → IsTable (put_slot t p (some (q, v)))
  insert-IsTable t q c p v inv absent lt at_p free path = record {
    unique = put_slot-IsUnique t q c p v inv.unique absent lt at_p free path;
    reached = λ i r w hi e. elim (put_slot-some t p q i r v w e) [
      | inl (at_i, qr, _) ↦
          rw (at_i, ← qr) (put_slot-Reached t q c p v inv.unique absent lt at_p free path)
      | inr (_, e') ↦ Reached-put_slot t p r i (q, v) (inv.reached i r w hi e')
    ];
  }

  pub Holds-insert :
      (t : Slots V) (q p r : ℕ) (v w : V)
      → q ≢ r
      → t p ≡ none
      → Holds (put_slot t p (some (q, v))) r w ↔ Holds t r w
  Holds-insert t q p r v w ne free = (
    λ (i, lt, e). elim (put_slot-some t p q i r v w e) [
      | inl (_, qr, _) ↦ absurd (ne qr)
      | inr (_, e') ↦ (i, lt, e')
    ],
    λ (i, lt, e). (
      i,
      lt,
      elim (Bool-cases (i == p)) [
        | inl same ↦ cc (free, e, ap t ((==_iff i p).0 same))
        | inr other ↦ rw other e
      ],
    ),
  )

  probe_get_found :
      (n : ℕ) (t : Slots V) (q i j : ℕ)
      → probe_find n t q i ≡ some j
      → probe_get n t q i ≡ some (j, false)
  unfolding probe_find probe_get
  probe_get_found zero t q i j e = cc
  probe_get_found (suc n) t q i j e = elim (Option-cases (t (i % table_cap))) [
    | inl free ↦ cc (rw (free, probe_find) at e)
    | inr ((p, v), used) ↦ ground (arith, probe_get_found n t q (i + 1) j)
  ]

  get_found :
      (fresh v : V) (t : Table V) (pid : ℕ)
      → IsTable t.slots
      → Holds t.slots pid v
      → (i : ℕ) × (get fresh t pid ≡ some (record { slot = i; created = false; table = t }))
  unfolding get find
  get_found fresh v t pid inv (i, lt, e) = (
    i,
    rw (
        probe_get_found table_cap t.slots pid (pid_hash pid) i
          (find_complete t.slots pid i v inv lt e)),
  )

  pub get_lem :
      (fresh : V) (t : Table V) (pid e : ℕ)
      → IsTable t.slots
      → e < table_cap
      → t.slots e ≡ none
      → (g : Got V) × (get fresh t pid ≡ some g)
        × IsTable g.table.slots
        × (entry g.table.slots pid ≡ some (Option.get_or (entry t.slots pid) fresh))
        × ((q : ℕ) → q ≢ pid → entry g.table.slots q ≡ entry t.slots q)
        × ((g.created ≡ true) ↔ (entry t.slots pid ≡ none))
  unfolding get
  get_lem fresh t pid e inv lt free = elim (Option-cases (entry t.slots pid)) [
    | inr (v, old) ↦
        let (i, got) = get_found fresh v t pid inv (Holds-of_entry t.slots pid v old) in
        (
          record { slot = i; created = false; table = t },
          got,
          inv,
          rw old,
          λ q ne. refl,
          (λ h. cc, λ h. cc),
        )
    | inl new ↦
        let absent : (w : V) → ¬ Holds t.slots pid w =
          λ w h. cc (new, entry-of_Holds t.slots pid w inv h) in
        let d = ahead (pid_hash pid) e in
        let at_e : (pid_hash pid + d) % table_cap ≡ e = omega arith in
        let (c, le, got, free', path) =
          probe_get_absent t.slots pid d absent (omega arith) (ap t.slots at_e ∙ free) in
        let p = (pid_hash pid + c) % table_cap in
        let inv' = insert-IsTable t.slots pid c p fresh inv absent (omega arith) refl free' path in
        (
          settle fresh t pid (p, true),
          rw got,
          inv',
          rw new (entry-of_Holds _ pid fresh inv' (p, omega arith, ground arith)),
          λ q ne.
              entry_eq _ t.slots q q inv' inv
                (λ w. Holds-insert t.slots pid p q fresh w (λ h. ne (sym h)) free'),
          (λ h. new, λ h. refl),
        )
  ]
