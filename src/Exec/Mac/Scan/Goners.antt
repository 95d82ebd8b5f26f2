-- ===== src/Exec/Mac/Scan/Goners.antt =====
-- Which pids scanMacDB of c/exec.c takes out of its table.
use mathlib.Core.Path.{subst}
use tracep.Base.{
  ==_iff, All, Bool-cases, List, Option, Option-cases, [], ap, arith, false, inl, inr, length, none,
  refl, some, suc, sym, true, zero, ℕ, ◌+◌, ◌<◌, ◌==◌, ◌∙◌, ◌∷◌, ◌≡◌, ◌≢◌, ◌≤◌, ◌⊎◌,
}
use tracep.Exec.Mac.{MacEntry}
use tracep.Exec.Mac.Scan.{goners_from, hash_among, is_live, max_goners, pid_among}
use tracep.PidTable.{Slots, pid_hash, table_cap}

pid_among_other :
    (pids : List ℕ) (q pid : ℕ) → (q == pid) ≡ false → pid_among (q ∷ pids) pid ≡ pid_among pids pid
unfolding pid_among
pid_among_other pids q pid other = rw (other, pid_among) refl

none_among : (pid : ℕ) {A : Type 0} → pid_among [] pid ≡ true → A
unfolding pid_among
none_among pid h = cc

hash_among-pid :
    (pids : List ℕ) (pid : ℕ) → pid_among pids pid ≡ true → hash_among pids (pid_hash pid) ≡ true
unfolding hash_among
hash_among-pid [] pid h = none_among pid h
hash_among-pid (q ∷ pids) pid h = elim (Bool-cases (pid_hash q == pid_hash pid)) [
  | inl same ↦ rw (same, hash_among) refl
  | inr differs ↦ elim (Bool-cases (q == pid)) [
    | inl same ↦
        let hashes = (==_iff (pid_hash q) (pid_hash pid)).1 (ap pid_hash ((==_iff q pid).0 same)) in
        cc
    | inr other ↦
        rw (differs, hash_among)
          (hash_among-pid pids pid (sym (pid_among_other pids q pid other) ∙ h))
  ]
]

-- The table of hashes changes nothing: a process is live if its pid is in the list.
is_live-eq-pid_among : (pids : List ℕ) (pid : ℕ) → is_live pids pid ≡ pid_among pids pid
unfolding is_live
is_live-eq-pid_among pids pid = elim (Bool-cases (pid_among pids pid)) [
  | inl e ↦ rw (is_live, hash_among-pid pids pid e) refl
  | inr e ↦ elim (Bool-cases (hash_among pids (pid_hash pid))) [
    | inl h ↦ rw (is_live, h) refl
    | inr h ↦ rw (is_live, h) (sym e)
  ]
]

-- The pid is in the list.
abbrev pub IsAmong : ℕ → List ℕ → Type 0
IsAmong pid [] = ⊥
IsAmong pid (q ∷ pids) = (q ≡ pid) ⊎ IsAmong pid pids

module _ (t : Slots MacEntry) (pids : List ℕ) where
  -- A slot that is free, or whose process is live, is passed over.
  abbrev Stays : ℕ → Type 0
  Stays i =
      (t i ≡ none) ⊎ ((q : ℕ) × (e : MacEntry) × (t i ≡ some (q, e)) × (pid_among pids q ≡ true))

  abbrev Goes : ℕ → ℕ → Type 0
  Goes i q = (e : MacEntry) × (t i ≡ some (q, e)) × (pid_among pids q ≡ false)

  slot_cases : (i : ℕ) → Stays i ⊎ ((q : ℕ) × Goes i q)
  slot_cases i = elim (Option-cases (t i)) [
    | inl free ↦ inl (inl free)
    | inr ((q, e), used) ↦ elim (Bool-cases (pid_among pids q)) [
      | inl live ↦ inl (inr (q, e, used, live))
      | inr gone ↦ inr (q, (e, used, gone))
    ]
  ]

  goners_from-Stays :
      (n i left : ℕ)
      → Stays i
      → goners_from (suc n) i (suc left) t pids ≡ goners_from n (i + 1) (suc left) t pids
  unfolding goners_from
  goners_from-Stays n i left (inl free) = rw (free, goners_from) refl
  goners_from-Stays n i left (inr (q, e, used, live)) =
      rw (used, goners_from, is_live-eq-pid_among pids q, live) refl

  goners_from-Goes :
      (n i left q : ℕ)
      → Goes i q
      → goners_from (suc n) i (suc left) t pids ≡ q ∷ goners_from n (i + 1) left t pids
  unfolding goners_from
  goners_from-Goes n i left q (e, used, gone) =
      rw (used, goners_from, is_live-eq-pid_among pids q, gone) refl

  abbrev AllGone : List ℕ → Type 0
  AllGone qs = All (λ q. pid_among pids q ≡ false) qs

  goners_from-AllGone : (n i left : ℕ) → AllGone (goners_from n i left t pids)
  unfolding goners_from
  goners_from-AllGone zero i left = tt
  goners_from-AllGone (suc n) i zero = tt
  goners_from-AllGone (suc n) i (suc left) = elim (slot_cases i) [
    | inl stays ↦
        subst AllGone (sym (goners_from-Stays n i left stays))
          (goners_from-AllGone n (i + 1) (suc left))
    | inr (q, goes) ↦
        subst AllGone (sym (goners_from-Goes n i left q goes))
          (goes.2, goners_from-AllGone n (i + 1) left)
  ]

  same_slot : (i p q : ℕ) → Goes i p → Goes i q → p ≡ q
  same_slot i p q (e, used, gone) (e', used', gone') =
      let both : ◌≡◌ {A = Option (ℕ × MacEntry)} (some (p, e)) (some (q, e')) = sym used ∙ used' in
      cc

  not_both : (i q : ℕ) → Stays i → Goes i q → ⊥
  not_both i q (inl free) (e, used, gone) = cc
  not_both i q (inr (p, e', used', live)) (e, used, gone) =
      let both : ◌≡◌ {A = Option (ℕ × MacEntry)} (some (p, e')) (some (q, e)) = sym used' ∙ used in
      let same : p ≡ q = cc in cc (ap (pid_among pids) same)

  -- Where the array has place, each pid that has gone is found.
  goners_from-IsAmong :
      (n i left k q : ℕ)
      → length (goners_from n i left t pids) < left
      → i ≤ k
      → k < i + n
      → Goes k q
      → IsAmong q (goners_from n i left t pids)
  goners_from-IsAmong zero i left k q short ge lt goes = absurd (omega arith)
  goners_from-IsAmong (suc n) i zero k q short ge lt goes = absurd (omega arith)
  goners_from-IsAmong (suc n) i (suc left) k q short ge lt goes = elim (slot_cases i) [
    | inl stays ↦
        let step = goners_from-Stays n i left stays in
        let ne : i ≢ k = λ same. not_both i q stays (subst (λ z. Goes z q) (sym same) goes) in
        subst (IsAmong q) (sym step) (
          goners_from-IsAmong n (i + 1) (suc left) k q (subst (λ l. length l < suc left) step short)
            (omega (arith, ne)) (omega arith) goes)
    | inr (p, goes') ↦
        let step = goners_from-Goes n i left p goes' in
        let short' : suc (length (goners_from n (i + 1) left t pids)) < suc left =
          subst (λ l. length l < suc left) step short in
        subst (IsAmong q) (sym step) (elim (Bool-cases (i == k)) [
          | inl same ↦
              inl (same_slot i p q goes' (subst (λ z. Goes z q) (sym ((==_iff i k).0 same)) goes))
          | inr other ↦ inr (
              goners_from-IsAmong n (i + 1) left k q (omega arith) (ground (arith, other))
                (omega arith) goes)
        ])
  ]

-- If scanMacDB finds fewer pids to take out than its array has places, each pid that the table
-- holds and the list of the live pids does not is among them, and none that the list holds,
-- although it looks into the list only after a table of hashes.
pub goners_from-exact :
    (t : Slots MacEntry) (pids : List ℕ) (k q : ℕ) (e : MacEntry)
    → length (goners_from table_cap 0 max_goners t pids) < max_goners
    → k < table_cap
    → t k ≡ some (q, e)
    → pid_among pids q ≡ false
    → IsAmong q (goners_from table_cap 0 max_goners t pids)
      × All (λ p. pid_among pids p ≡ false) (goners_from table_cap 0 max_goners t pids)
goners_from-exact t pids k q e short lt used gone = (
  goners_from-IsAmong t pids table_cap 0 max_goners k q short (omega arith) (omega (arith, lt))
      (e, used, gone),
  goners_from-AllGone t pids table_cap 0 max_goners,
)
