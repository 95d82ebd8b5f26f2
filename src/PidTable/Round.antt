-- ===== src/PidTable/Round.antt =====
-- One round of the loop of piddb_delete: an entry of the cluster is taken out and put back in.
use tracep.Base.{
  ==_iff, Bool-cases, ap, arith, false, inl, inr, none, refl, some, true, ℕ, ◌%◌, ◌+◌, ◌<◌, ◌==◌,
  ◌↔◌, ◌∙◌, ◌≡◌, ◌≢◌, ◌≤◌, ◌⊎◌,
}
use tracep.PidTable.{Slots, pid_hash, probe_get, put_slot, table_cap}
use tracep.PidTable.Cluster.{Avoids, IsLoop, Reached-clear, Run, Run-clear, Run-put}
use tracep.PidTable.Free.{Reached-put_slot, probe_get_absent, put_slot-none, put_slot-some}
use tracep.PidTable.Insert.{put_slot-IsUnique, put_slot-Reached}
use tracep.PidTable.Probe.{Holds, IsUnique, Reached}

module _ {V : Type 0} (t : Slots V) (j e k q : ℕ) (v : V) (loop : IsLoop t j e)
    (at_k : k ≡ (j + 1) % table_cap) (used : t k ≡ some (q, v)) where
  abbrev out : Slots V
  out = put_slot t k none

  out_absent : (w : V) → ¬ Holds out q w
  out_absent w (i, hi, ei) =
      let (ne, ei') = put_slot-none t k i q w ei in
      ne (loop.unique i k q w v hi (omega arith) ei' used)

  out-IsUnique : IsUnique out
  out-IsUnique i i' r w x hi hi' ei ei' =
      loop.unique i i' r w x hi hi' (put_slot-none t k i r w ei).1 (put_slot-none t k i' r x ei').1

  -- Where the entry goes.
  abbrev pub Next : ℕ → Type 0
  Next p =
      (c : ℕ) × (c < table_cap)
      × ((pid_hash q + c) % table_cap ≡ p)
      × (p ≢ e)
      × (out p ≡ none)
      × (probe_get table_cap out q (pid_hash q) ≡ some (p, true))
      × ((m : ℕ) → m < c → out ((pid_hash q + m) % table_cap) ≢ none)
      × ((m : ℕ) → m ≤ c → (pid_hash q + m) % table_cap ≢ e)

  pub moved_slot : (p : ℕ) × Next p
  moved_slot =
      let (d, lt, at_d, avoid) = loop.avoids k q v (omega arith) used in
      let here : out k ≡ none = ground arith in
      let (c, le, got, free, path) = probe_get_absent out q d out_absent lt (ap out at_d ∙ here) in
      (
        (pid_hash q + c) % table_cap,
        (c, omega arith, refl, avoid c le, free, got, path, λ m le'. avoid m (omega arith)),
      )

  module _ (p : ℕ) (n : Next p) where
    abbrev pub moved : Slots V
    moved = put_slot out p (some (q, v))

    moved_free : moved e ≡ none
    moved_free = ground (arith, loop.free, n.3)

    moved_covered :
        (i r : ℕ) (w : V)
        → i < table_cap
        → moved i ≡ some (r, w)
        → Reached moved r i ⊎ Run moved k i
    moved_covered i r w hi ei = elim (put_slot-some out p q i r v w ei) [
      | inl (at_i, qr, _) ↦
          inl (
            rw (at_i, ← qr)
              (put_slot-Reached out q n.0 p v out-IsUnique out_absent n.1 n.2 n.4 n.6))
      | inr (_, ei1) ↦
          let (ne, ei2) = put_slot-none t k i r w ei1 in
          elim (loop.covered i r w hi ei2) [
            | inl r1 ↦ elim (Reached-clear t k r i (omega arith) ne (λ z. cc) r1) [
              | inl r2 ↦ inl (Reached-put_slot out p r i (q, v) r2)
              | inr run ↦ inr (Run-put out p k i (q, v) run)
            ]
            | inr run ↦ inr (Run-put out p k i (q, v) (Run-clear t j k i at_k ne run))
          ]
    ]

    moved-Avoids : (i r : ℕ) (w : V) → i < table_cap → moved i ≡ some (r, w) → Avoids r i e
    moved-Avoids i r w hi ei = elim (put_slot-some out p q i r v w ei) [
      | inl (at_i, qr, _) ↦ rw (at_i, ← qr) (n.0, n.1, n.2, n.7)
      | inr (_, ei1) ↦ loop.avoids i r w hi (put_slot-none t k i r w ei1).1
    ]

    pub moved-IsLoop : IsLoop moved k e
    moved-IsLoop = record {
      unique = put_slot-IsUnique out q n.0 p v out-IsUnique out_absent n.1 n.2 n.4 n.6;
      free = moved_free;
      covered = moved_covered;
      avoids = moved-Avoids;
    }

    kept : (i r : ℕ) (w : V) → (i == k) ≡ false → t i ≡ some (r, w) → moved i ≡ some (r, w)
    kept i r w other ei =
        let still : out i ≡ some (r, w) = ground (arith, ei) in
        elim (Bool-cases (i == p)) [
          | inl same ↦ cc (still, n.4, ap out ((==_iff i p).0 same))
          | inr ne ↦ rw ne still
        ]

    -- The round loses no entry and makes none up.
    pub Holds-moved : (r : ℕ) (w : V) → Holds moved r w ↔ Holds t r w
    Holds-moved r w = (
      λ (i, hi, ei). elim (put_slot-some out p q i r v w ei) [
        | inl (_, qr, vw) ↦ (k, omega arith, cc)
        | inr (_, ei1) ↦ (i, hi, (put_slot-none t k i r w ei1).1)
      ],
      λ (i, hi, ei). elim (Bool-cases (i == k)) [
        | inl same ↦ (p, omega (arith, n.2), ground (arith, ei, used, ap t ((==_iff i k).0 same)))
        | inr other ↦ (i, hi, kept i r w other ei)
      ],
    )
