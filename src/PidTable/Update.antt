-- ===== src/PidTable/Update.antt =====
-- Writing the entry of a pid that has a slot, as the caller of piddb_get does.
use mathlib.Core.Path.{subst}
use tracep.Base.{
  ==_iff, Bool-cases, Option-cases, ap, arith, false, inl, inr, none, refl, some, suc, sym, true,
  zero, ℕ, ◌%◌, ◌+◌, ◌<◌, ◌==◌, ◌∙◌, ◌≡◌, ◌≢◌,
}
use tracep.PidTable.{Got, Slots, Table, get, pid_hash, probe_get, put_slot, settle, table_cap}
use tracep.PidTable.Free.{Reached-put_slot, probe_get_new, probe_get_old, put_slot-some}
use tracep.PidTable.Probe.{IsTable, entry, entry-of_Holds, entry_eq}

module _ {V : Type 0} where
  pub update-IsTable :
      (t : Slots V) (k q : ℕ) (v w : V)
      → IsTable t
      → t k ≡ some (q, w)
      → IsTable (put_slot t k (some (q, v)))
  update-IsTable t k q v w inv at_k =
      let before : (i r : ℕ) (x : V)
          → put_slot t k (some (q, v)) i ≡ some (r, x)
          → (y : V) × (t i ≡ some (r, y)) =
        λ i r x e. elim (put_slot-some t k q i r v x e) [
          | inl (at_i, qr, _) ↦ (w, ap t at_i ∙ (at_k ∙ ap (λ z. some (z, w)) qr))
          | inr (_, e') ↦ (x, e')
        ] in
      record {
        unique = λ i j r x y hi hj ei ej.
            let (x', ei') = before i r x ei in
            let (y', ej') = before j r y ej in inv.unique i j r x' y' hi hj ei' ej';
        reached = λ i r x hi e.
            let (x', e') = before i r x e in
            Reached-put_slot t k r i (q, v) (inv.reached i r x' hi e');
      }

  pub entry-update :
      (t : Slots V) (k q : ℕ) (v w : V)
      → IsTable t
      → k < table_cap
      → t k ≡ some (q, w)
      → (entry (put_slot t k (some (q, v))) q ≡ some v)
        × ((r : ℕ) → r ≢ q → entry (put_slot t k (some (q, v))) r ≡ entry t r)
  entry-update t k q v w inv lt at_k =
      let inv' = update-IsTable t k q v w inv at_k in
      (
        entry-of_Holds _ q v inv' (k, lt, ground arith),
        λ r ne. entry_eq _ t r r inv' inv (λ x. (
          λ (i, hi, e). elim (put_slot-some t k q i r v x e) [
            | inl (_, qr, _) ↦ absurd (ne (sym qr))
            | inr (_, e') ↦ (i, hi, e')
          ],
          λ (i, hi, e). (
            i,
            hi,
            elim (Bool-cases (i == k)) [
              | inl same ↦ absurd (ne (ground (arith, e, at_k, ap t ((==_iff i k).0 same))))
              | inr other ↦ rw other e
            ],
          ),
        )),
      )

  -- The slot that piddb_get returns is the pid's.
  pub get-slot :
      (fresh : V) (t : Table V) (q : ℕ) (g : Got V)
      → get fresh t q ≡ some g
      → (w : V) × (g.slot < table_cap) × (g.table.slots g.slot ≡ some (q, w))
  unfolding get
  get-slot fresh t q g e = elim (Option-cases (probe_get table_cap t.slots q (pid_hash q))) [
    | inl full ↦ cc (rw full at e)
    | inr ((p, false), found) ↦
        let (w, lt, at_p) = probe_get_old table_cap t.slots q (pid_hash q) p found in
        let same : settle fresh t q (p, false) ≡ g = cc (rw found at e) in
        subst (λ (g : Got V). (w : V) × (g.slot < table_cap) × (g.table.slots g.slot ≡ some (q, w)))
          same (w, lt, at_p)
    | inr ((p, true), found) ↦
        let (d, _, at_p, _, _) = probe_get_new table_cap t.slots q (pid_hash q) p found in
        let same : settle fresh t q (p, true) ≡ g = cc (rw found at e) in
        subst (λ (g : Got V). (w : V) × (g.slot < table_cap) × (g.table.slots g.slot ≡ some (q, w)))
          same (fresh, omega arith, ground arith)
  ]

  probe_get_full :
      (n : ℕ) (t : Slots V) (q i : ℕ)
      → ((k : ℕ) → k < table_cap → (p : ℕ) × (v : V) × (t k ≡ some (p, v)) × (p ≢ q))
      → probe_get n t q i ≡ none
  unfolding probe_get
  probe_get_full zero t q i full = refl
  probe_get_full (suc n) t q i full =
      let (p, v, used, ne) = full (i % table_cap) (omega arith) in
      let other : (p == q) ≡ false = ground arith in
      rw (used, probe_get, other) (probe_get_full n t q (i + 1) full)

  -- A table whose slots all hold other pids has no slot for a new one.
  pub get_full :
      (fresh : V) (t : Table V) (q : ℕ)
      → ((k : ℕ) → k < table_cap → (p : ℕ) × (v : V) × (t.slots k ≡ some (p, v)) × (p ≢ q))
      → get fresh t q ≡ none
  unfolding get
  get_full fresh t q full = rw (probe_get_full table_cap t.slots q (pid_hash q) full) refl
