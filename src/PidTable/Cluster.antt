-- ===== src/PidTable/Cluster.antt =====
-- The loop of piddb_delete in c/exec.c over the cluster behind the hole: its invariant. An entry
-- that its probes no longer reach stands in the run of used slots that the loop has before it.
use tracep.Base.{
  Bool-cases, ap, arith, inl, inr, ltb, ltb→ge, ltb→lt, none, some, ℕ, ◌%◌, ◌+◌, ◌-◌, ◌<◌, ◌∙◌, ◌≡◌,
  ◌≢◌, ◌≤◌, ◌⊎◌,
}
use tracep.PidTable.{Slots, pid_hash, put_slot, table_cap}
use tracep.PidTable.Free.{ahead, put_slot-none}
use tracep.PidTable.Probe.{IsTable, IsUnique, Reached}

-- Slot `e` is not among the probes of `q` up to slot `i`.
abbrev pub Avoids : ℕ → ℕ → ℕ → Type 0
Avoids q i e =
    (d : ℕ) × (d < table_cap)
    × ((pid_hash q + d) % table_cap ≡ i)
    × ((m : ℕ) → m ≤ d → (pid_hash q + m) % table_cap ≢ e)

module _ {V : Type 0} where
  -- Slot `i` ends a run of used slots that begins behind slot `j`.
  abbrev pub Run : Slots V → ℕ → ℕ → Type 0
  Run t j i =
      (d : ℕ) × (0 < d)
      × (d < table_cap)
      × ((j + d) % table_cap ≡ i)
      × ((m : ℕ) → 0 < m → m ≤ d → t ((j + m) % table_cap) ≢ none)

  -- `j` is the slot of the last round, and `e` a free slot that ends the loop at the latest.
  pub record IsLoop (t : Slots V) (j e : ℕ) : Type 0 where
    pub unique : IsUnique t
    pub free : t e ≡ none
    pub covered : (i q : ℕ) (v : V) → i < table_cap → t i ≡ some (q, v) → Reached t q i ⊎ Run t j i
    pub avoids : (i q : ℕ) (v : V) → i < table_cap → t i ≡ some (q, v) → Avoids q i e

  put_none_used : (t : Slots V) (k i : ℕ) → i ≢ k → t i ≢ none → put_slot t k none i ≢ none
  put_none_used t k i ne used e = ground arith

  put_some_used : (t : Slots V) (p i : ℕ) (x : ℕ × V) → t i ≢ none → put_slot t p (some x) i ≢ none
  put_some_used t p i x used e = ground arith

  -- An entry whose probes went through the slot that is freed stands in the run behind it.
  pub Reached-clear :
      (t : Slots V) (k q i : ℕ)
      → k < table_cap
      → i ≢ k
      → t i ≢ none
      → Reached t q i
      → Reached (put_slot t k none) q i ⊎ Run (put_slot t k none) k i
  Reached-clear t k q i lt ne used (d, ltd, at_i, path) =
      let c = ahead (pid_hash q) k in
      elim (Bool-cases (ltb c d)) [
        | inl through ↦
            let ltc = ltb→lt c d through in
            inr (
              d - c,
              omega arith,
              omega arith,
              omega arith,
              λ m pos le.
                  put_none_used t k ((k + m) % table_cap) (omega arith)
                    (elim (Bool-cases (ltb (c + m) d)) [
                      | inl inner ↦
                          let at_m : (pid_hash q + (c + m)) % table_cap ≡ (k + m) % table_cap =
                            omega arith in
                          λ e. path (c + m) (ltb→lt (c + m) d inner) (ap t at_m ∙ e)
                      | inr outer ↦
                          let last = ltb→ge (c + m) d outer in
                          let at_m : i ≡ (k + m) % table_cap = omega arith in
                          λ e. used (ap t at_m ∙ e)
                    ]),
            )
        | inr before ↦
            let gec = ltb→ge c d before in
            inl (
              d,
              ltd,
              at_i,
              λ m h. put_none_used t k ((pid_hash q + m) % table_cap) (omega arith) (path m h),
            )
      ]

  pub Run-clear :
      (t : Slots V) (j k i : ℕ)
      → k ≡ (j + 1) % table_cap
      → i ≢ k
      → Run t j i
      → Run (put_slot t k none) k i
  Run-clear t j k i at_k ne (d, pos, lt, at_i, path) =
      let far : d ≢ 1 = λ one. ne (omega arith) in
      (
        d - 1,
        omega arith,
        omega arith,
        omega arith,
        λ m pos' le.
            let at_m : (j + (m + 1)) % table_cap ≡ (k + m) % table_cap = omega arith in
            put_none_used t k ((k + m) % table_cap) (omega arith)
              (λ e. path (m + 1) (omega arith) (omega arith) (ap t at_m ∙ e)),
      )

  pub Run-put : (t : Slots V) (p j i : ℕ) (x : ℕ × V) → Run t j i → Run (put_slot t p (some x)) j i
  Run-put t p j i x (d, pos, lt, at_i, path) =
      (d, pos, lt, at_i, λ m pos' le. put_some_used t p ((j + m) % table_cap) x (path m pos' le))

  -- The first hole.
  pub IsLoop-clear :
      (t : Slots V) (k e : ℕ)
      → IsTable t
      → k < table_cap
      → e < table_cap
      → t e ≡ none
      → IsLoop (put_slot t k none) k e
  IsLoop-clear t k e inv lt lte free = record {
    unique = λ i j q v w hi hj ei ej.
        inv.unique i j q v w hi hj (put_slot-none t k i q v ei).1 (put_slot-none t k j q w ej).1;
    free = ground (arith, free);
    covered = λ i q v hi ei.
        let (ne, ei') = put_slot-none t k i q v ei in
        Reached-clear t k q i lt ne (λ n. cc) (inv.reached i q v hi ei');
    avoids = λ i q v hi ei.
        let (ne, ei') = put_slot-none t k i q v ei in
        let (d, ltd, at_i, path) = inv.reached i q v hi ei' in
        (
          d,
          ltd,
          at_i,
          λ m le at_e. elim (Bool-cases (ltb m d)) [
            | inl inner ↦ path m (ltb→lt m d inner) (ap t at_e ∙ free)
            | inr last ↦
                let same : i ≡ e = omega (arith, ltb→ge m d last) in cc (ap t same, ei', free)
          ],
        );
  }

  -- Where the next slot is free, nothing is left to do.
  pub IsTable-of_IsLoop :
      (t : Slots V) (j e : ℕ) → IsLoop t j e → t ((j + 1) % table_cap) ≡ none → IsTable t
  IsTable-of_IsLoop t j e loop stop = record {
    unique = loop.unique;
    reached = λ i q v hi ei. elim (loop.covered i q v hi ei) [
      | inl r ↦ r
      | inr (d, pos, lt, at_i, path) ↦ absurd (path 1 (omega arith) (omega arith) stop)
    ];
  }
