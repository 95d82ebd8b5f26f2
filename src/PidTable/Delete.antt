-- ===== src/PidTable/Delete.antt =====
-- piddb_delete of c/exec.c.
use mathlib.Core.Path.{fun_ext, subst}
use tracep.Base.{
  ==_iff, Bool-cases, Option, Option-cases, ap, arith, inl, inr, none, refl, some, suc, sym, true,
  zero, ℕ, ◌%◌, ◌+◌, ◌-◌, ◌<◌, ◌==◌, ◌↔◌, ◌≡◌, ◌≢◌, ◌≤◌,
}
use tracep.Memory.{Outcome, Returns, fault, ok, spin}
use tracep.PidTable.{
  Slots, Table, clear, delete, fill_in, find, get, pid_hash, probe_get, put_slot, reinsert, settle,
  table_cap,
}
use tracep.PidTable.Cluster.{IsLoop, IsLoop-clear, IsTable-of_IsLoop}
use tracep.PidTable.Free.{ahead, put_slot-none}
use tracep.PidTable.Probe.{Holds, IsTable, entry, entry_eq, entry-none, find_sound}
use tracep.PidTable.Round.{Holds-moved, moved-IsLoop, moved_slot}

put_slot_twice :
    {V : Type 0} (t : Slots V) (p : ℕ) (x y : Option (ℕ × V))
    → put_slot (put_slot t p x) p y ≡ put_slot t p y
put_slot_twice t p x y = fun_ext λ i. ground arith

module _ {V : Type 0} where
  -- What the loop gives back: a table with the same entries.
  abbrev Kept : Slots V → Table V → Type 0
  Kept t u = IsTable u.slots × ((q : ℕ) (v : V) → Holds u.slots q v ↔ Holds t q v)

  Kept-trans :
      (t t' : Slots V) (r : Outcome (Table V))
      → ((q : ℕ) (v : V) → Holds t' q v ↔ Holds t q v)
      → Returns (Kept t') r
      → Returns (Kept t) r
  Kept-trans t t' (ok u) same (inv, kept) =
      (inv, λ q v. (λ h. (same q v).0 ((kept q v).0 h), λ h. (kept q v).1 ((same q v).1 h)))
  Kept-trans t t' fault same h = elim h [ ]
  Kept-trans t t' spin same h = elim h [ ]

  get_at :
      (fresh : V) (t : Table V) (q p : ℕ)
      → probe_get table_cap t.slots q (pid_hash q) ≡ some (p, true)
      → get fresh t q ≡ some (settle fresh t q (p, true))
  unfolding get
  get_at fresh t q p e = rw e

  reinsert-Kept :
      (n r : ℕ) (fresh : V) (t : Table V) (j e : ℕ)
      → IsLoop t.slots j e
      → e < table_cap
      → (j + r) % table_cap ≡ e
      → 0 < r
      → r ≤ n
      → Returns (Kept t.slots) (reinsert n fresh t j)
  unfolding reinsert
  reinsert-Kept zero r fresh t j e loop lt at_e pos le = absurd (omega arith)
  reinsert-Kept (suc n) r fresh t j e loop lt at_e pos le =
      let k = (j + 1) % table_cap in
      elim (Option-cases (t.slots k)) [
        | inl stop ↦
            rw (stop, reinsert) (IsTable-of_IsLoop t.slots j e loop stop, λ q v. (λ h. h, λ h. h))
        | inr ((q, v), used) ↦
            let (p, next) = moved_slot t.slots j e k q v loop refl used in
            let got = get_at fresh (clear t k) q p next.5 in
            let far : r ≢ 1 =
              λ one. let at_k : k ≡ e = omega arith in cc (ap t.slots at_k, used, loop.free) in
            let out : Slots V = put_slot t.slots k none in
            let twice = put_slot_twice out p (some (q, fresh)) (some (q, v)) in
            let loop' = moved-IsLoop t.slots j e k q v loop refl used p next in
            let holds = Holds-moved t.slots j e k q v loop refl used p next in
            let t' : Table V = fill_in (settle fresh (clear t k) q (p, true)) q v in
            rw (used, reinsert, got)
              (Kept-trans t.slots t'.slots (reinsert n fresh t' k)
                (λ q' v'.
                  subst (λ s. Holds s q' v' ↔ Holds t.slots q' v') (sym twice) (holds q' v'))
                (reinsert-Kept n (r - 1) fresh t' k e (subst (λ s. IsLoop s k e) (sym twice) loop')
                  lt (omega arith) (omega arith) (omega arith)))
      ]

  -- The entry of the pid is gone, and every other is as it was.
  abbrev pub Deleted : Slots V → ℕ → Table V → Type 0
  Deleted t pid u =
      IsTable u.slots
      × (entry u.slots pid ≡ none)
      × ((q : ℕ) → q ≢ pid → entry u.slots q ≡ entry t q)

  Deleted-of_Kept :
      (t : Slots V) (pid s : ℕ) (v : V) (r : Outcome (Table V))
      → IsTable t
      → s < table_cap
      → t s ≡ some (pid, v)
      → Returns (Kept (put_slot t s none)) r
      → Returns (Deleted t pid) r
  Deleted-of_Kept t pid s v (ok u) inv lt e (inv', kept) = (
    inv',
    entry-none u.slots pid (λ w h.
        let (i, hi, ei) = (kept pid w).0 h in
        let (ne, ei') = put_slot-none t s i pid w ei in ne (inv.unique i s pid w v hi lt ei' e)),
    λ q ne. entry_eq u.slots t q q inv' inv (λ w. (
      λ h. let (i, hi, ei) = (kept q w).0 h in (i, hi, (put_slot-none t s i q w ei).1),
      λ (i, hi, ei). (kept q w).1 (
        i,
        hi,
        elim (Bool-cases (i == s)) [
          | inl same ↦ absurd (ne (ground (arith, ei, e, ap t ((==_iff i s).0 same))))
          | inr other ↦ rw other ei
        ],
      ),
    )),
  )
  Deleted-of_Kept t pid s v fault inv lt e h = elim h [ ]
  Deleted-of_Kept t pid s v spin inv lt e h = elim h [ ]

  -- From a table with a free slot, piddb_delete ends, never follows a NULL, and leaves a table in
  -- which its pid has no entry and every other pid has the entry that it had.
  pub delete-Deleted :
      (fresh : V) (t : Table V) (pid e : ℕ)
      → IsTable t.slots
      → e < table_cap
      → t.slots e ≡ none
      → Returns (Deleted t.slots pid) (delete fresh t pid)
  unfolding delete entry
  delete-Deleted fresh t pid e inv lt free = elim (Option-cases (find t.slots pid)) [
    | inl absent ↦ rw (absent, delete) (inv, rw (absent, entry), λ q ne. refl)
    | inr (s, found) ↦
        let (v, lts, es) = find_sound t.slots pid s found in
        let ne : s ≢ e = λ same. cc (ap t.slots same, es, free) in
        rw (found, delete)
          (Deleted-of_Kept t.slots pid s v (reinsert table_cap fresh (clear t s) s) inv lts es (
            reinsert-Kept table_cap (ahead s e) fresh (clear t s) s e
              (IsLoop-clear t.slots s e inv lts lt free) lt (omega arith) (omega arith)
              (omega arith)))
  ]
