-- ===== src/PidTable/Probe.antt =====
-- What a table of c/exec.c holds, and piddb_find.
use mathlib.Core.Option
use tracep.Base.{
  Bool-cases, Option, Option-cases, ap, arith, inl, inr, none, some, suc, sym, zero, ℕ, ◌%◌, ◌+◌,
  ◌<◌, ◌==◌, ◌↔◌, ◌∙◌, ◌≡◌, ◌≢◌,
}
use tracep.PidTable.{Slots, find, pid_hash, probe_find, table_cap}

module _ {V : Type 0} where
  -- The probes from the hash of `q` reach slot `i` over used slots.
  abbrev pub Reached : Slots V → ℕ → ℕ → Type 0
  Reached t q i =
      (d : ℕ) × (d < table_cap)
      × ((pid_hash q + d) % table_cap ≡ i)
      × ((k : ℕ) → k < d → t ((pid_hash q + k) % table_cap) ≢ none)

  -- No pid has two slots.
  abbrev pub IsUnique : Slots V → Type 0
  IsUnique t =
      (i j q : ℕ) (v w : V)
      → i < table_cap
      → j < table_cap
      → t i ≡ some (q, v)
      → t j ≡ some (q, w)
      → i ≡ j

  -- The invariant of the table.
  pub record IsTable (t : Slots V) : Type 0 where
    pub unique : IsUnique t
    pub reached : (i q : ℕ) (v : V) → i < table_cap → t i ≡ some (q, v) → Reached t q i

  -- The table holds the entry `v` for `q`.
  abbrev pub Holds : Slots V → ℕ → V → Type 0
  Holds t q v = (i : ℕ) × (i < table_cap) × (t i ≡ some (q, v))

  probe_find_sound :
      (n : ℕ) (t : Slots V) (q i j : ℕ)
      → probe_find n t q i ≡ some j
      → (v : V) × (j < table_cap) × (t j ≡ some (q, v))
  unfolding probe_find
  probe_find_sound zero t q i j e = cc
  probe_find_sound (suc n) t q i j e = elim (Option-cases (t (i % table_cap))) [
    | inl free ↦ cc (rw (free, probe_find) at e)
    | inr ((p, v), used) ↦ elim (Bool-cases (p == q)) [
      | inl same ↦ (v, ground arith, ground arith)
      | inr other ↦ probe_find_sound n t q (i + 1) j (ground arith)
    ]
  ]

  probe_find_complete :
      (n r : ℕ) (t : Slots V) (q k i j : ℕ) (v : V)
      → IsUnique t
      → j < table_cap
      → t j ≡ some (q, v)
      → i ≡ pid_hash q + k
      → (i + r) % table_cap ≡ j
      → k + r < table_cap
      → r < n
      → ((m : ℕ) → m < k + r → t ((pid_hash q + m) % table_cap) ≢ none)
      → probe_find n t q i ≡ some j
  unfolding probe_find
  probe_find_complete zero r t q k i j v unique lt e at_i at_j bound fuel path = elim fuel [ ]
  probe_find_complete (suc n) zero t q k i j v unique lt e at_i at_j bound fuel path =
      let here : i % table_cap ≡ j = omega arith in ground (arith, ap t here)
  probe_find_complete (suc n) (suc r) t q k i j v unique lt e at_i at_j bound fuel path =
      elim (Option-cases (t (i % table_cap))) [
        | inl free ↦ absurd (path k (omega arith) (ap (λ x. t (x % table_cap)) (sym at_i) ∙ free))
        | inr ((p, w), used) ↦ elim (Bool-cases (p == q)) [
          | inl same ↦
              absurd
                (omega (arith, unique (i % table_cap) j q w v (omega arith) lt (ground arith) e))
          | inr other ↦ ground (
            arith,
            probe_find_complete n r t q (k + 1) (i + 1) j v unique lt e (omega arith) (omega arith)
                (omega arith) (omega arith) (λ m h. path m (omega arith)),
          )
        ]
      ]

  pub find_sound :
      (t : Slots V) (q j : ℕ) → find t q ≡ some j → (v : V) × (j < table_cap) × (t j ≡ some (q, v))
  unfolding find
  find_sound t q j e = probe_find_sound table_cap t q (pid_hash q) j e

  pub find_complete :
      (t : Slots V) (q j : ℕ) (v : V)
      → IsTable t
      → j < table_cap
      → t j ≡ some (q, v)
      → find t q ≡ some j
  unfolding find
  find_complete t q j v inv lt e =
      let (d, bound, at_j, path) = inv.reached j q v lt e in
      probe_find_complete table_cap d t q 0 (pid_hash q) j v inv.unique lt e (omega arith)
        (omega arith) (omega arith) bound (λ m h. path m (omega arith))

  -- What a reader of the table gets for a pid: the entry that the slot of piddb_find holds.
  unfoldable pub entry : Slots V → ℕ → Option V
  entry t q = elim (find t q) [ none ↦ none | some j ↦ Option.map (λ e. e.1) (t j) ]

  pub entry-of_Holds : (t : Slots V) (q : ℕ) (v : V) → IsTable t → Holds t q v → entry t q ≡ some v
  unfolding entry
  entry-of_Holds t q v inv (i, lt, e) = rw (find_complete t q i v inv lt e, entry, e)

  pub Holds-of_entry : (t : Slots V) (q : ℕ) (v : V) → entry t q ≡ some v → Holds t q v
  unfolding entry
  Holds-of_entry t q v h = elim (Option-cases (find t q)) [
    | inl nothing ↦ cc (rw (nothing, entry) at h)
    | inr (j, found) ↦ let (w, lt, e) = find_sound t q j found in (j, lt, e ∙ ground arith)
  ]

  -- Two tables that hold the same entry for a pid, or neither any, agree on it.
  pub entry_eq :
      (t u : Slots V) (p q : ℕ)
      → IsTable t
      → IsTable u
      → ((v : V) → Holds t p v ↔ Holds u q v)
      → entry t p ≡ entry u q
  entry_eq t u p q inv inv' same = elim (Option-cases (entry t p)) [
    | inr (v, e) ↦ e ∙ sym (entry-of_Holds u q v inv' ((same v).0 (Holds-of_entry t p v e)))
    | inl e ↦ elim (Option-cases (entry u q)) [
      | inl e' ↦ e ∙ sym e'
      | inr (v, e') ↦ entry-of_Holds t p v inv ((same v).1 (Holds-of_entry u q v e')) ∙ sym e'
    ]
  ]

  pub entry-none : (t : Slots V) (q : ℕ) → ((v : V) → ¬ Holds t q v) → entry t q ≡ none
  entry-none t q absent = elim (Option-cases (entry t q)) [
    | inl e ↦ e
    | inr (v, e) ↦ absurd (absent v (Holds-of_entry t q v e))
  ]
