-- ===== src/Net/Watch/Climbs.antt =====
-- is_descendant of c/net.c: the list of pids seen changes no answer.
use mathlib.Core.Path.{subst}
use tracep.Base.{
  ==_iff, All, All-concat, All-map, Bool, Bool-cases, List, Option, [], arith, false, inl, inr, not,
  refl, suc, sym, true, zero, ℕ, ◌&&◌, ◌++◌, ◌+◌, ◌<◌, ◌==◌, ◌∙◌, ◌∷◌, ◌≡◌, ◌≢◌, ◌⊎◌,
}
use tracep.Memory.{Bytes}
use tracep.Net.Watch.{
  Climb, climb, climb_on, descends, give_up, is_above, is_descendant, pid_in, reached, seen_max,
}

Climb-cases : (c : Climb) → (c ≡ give_up) ⊎ ((c ≡ reached) ⊎ ((q : ℕ) × (c ≡ climb_on q)))
Climb-cases give_up = inl refl
Climb-cases reached = inr (inl refl)
Climb-cases (climb_on q) = inr (inr (q, refl))

not_true : (b : Bool) → b ≢ true → b ≡ false
not_true true h = absurd (h refl)
not_true false h = refl

module _ (watch : List ℕ) (stat : ℕ → Option Bytes) where
  -- A look at the parents of `p`, of `n` of them at most, that keeps no list.
  unfoldable pub climbs : ℕ → ℕ → Bool
  climbs zero p = false
  climbs (suc n) p = elim (is_above 1 p) [
    | false ↦ false
    | true ↦ elim (climb watch stat p) [
      | give_up ↦ false
      | reached ↦ true
      | climb_on q ↦ climbs n q
    ]
  ]

  -- From `q` the loop gets to `p` in the number of rounds.
  abbrev Leads : ℕ → ℕ → ℕ → Type 0
  Leads zero q p = q ≡ p
  Leads (suc j) q p = (r : ℕ) × (climb watch stat q ≡ climb_on r) × Leads j r p

  Leads-step : (j q p r : ℕ) → Leads j q p → climb watch stat p ≡ climb_on r → Leads (suc j) q r
  Leads-step zero q p r same e = (r, rw same e, refl)
  Leads-step (suc j) q p r (s, first, rest) e = (s, first, Leads-step j s p r rest e)

  climbs_go :
      (n q r : ℕ)
      → climb watch stat q ≡ climb_on r
      → climbs n q ≡ true
      → (m : ℕ) × (n ≡ suc m) × (climbs m r ≡ true)
  unfolding climbs
  climbs_go zero q r first h = cc
  climbs_go (suc n) q r first h = elim (Bool-cases (is_above 1 q)) [
    | inl up ↦ (n, refl, rw (up, climbs, first) at h)
    | inr end ↦ cc (rw (end, climbs) at h)
  ]

  climbs-Leads :
      (j n q p : ℕ) → Leads j q p → climbs n q ≡ true → (m : ℕ) × (m + j ≡ n) × (climbs m p ≡ true)
  climbs-Leads zero n q p same h = (n, omega arith, subst (λ i. climbs n i ≡ true) same h)
  climbs-Leads (suc j) n q p (r, first, rest) h =
      let (m, e, h') = climbs_go n q r first h in
      let (i, sum, h'') = climbs-Leads j m r p rest h' in (i, omega (arith, e, sum), h'')

  no_circle : (k n j p : ℕ) → n < k → Leads (suc j) p p → climbs n p ≢ true
  no_circle zero n j p lt circle h = absurd (omega arith)
  no_circle (suc k) n j p lt circle h =
      let (m, sum, h') = climbs-Leads (suc j) n p p circle h in
      no_circle k m j p (omega (arith, sum)) circle h'

  abbrev Leading : ℕ → ℕ → Type 0
  Leading p q = (j : ℕ) × Leads (suc j) q p

  seen-circle : (p : ℕ) (seen : List ℕ) → All (Leading p) seen → pid_in seen p ≡ true → Leading p p
  unfolding pid_in
  seen-circle p [] h e = cc
  seen-circle p (q ∷ seen) (h, hs) e = elim (Bool-cases (q == p)) [
    | inl here ↦ subst (Leading p) ((==_iff q p).0 here) h
    | inr on ↦ seen-circle p seen hs (rw on at e)
  ]

  descends_seen :
      (n : ℕ) (seen : List ℕ) (p : ℕ)
      → (is_above 1 p && not (pid_in seen p)) ≡ false
      → descends watch stat (suc n) seen p ≡ false
  unfolding descends
  descends_seen n seen p e = rw (e, descends) refl

  -- A list of pids that all lead to `p` makes no difference.
  descends-eq-climbs :
      (n : ℕ) (seen : List ℕ) (p : ℕ)
      → All (Leading p) seen
      → descends watch stat n seen p ≡ climbs n p
  unfolding descends climbs
  descends-eq-climbs zero seen p h = refl
  descends-eq-climbs (suc n) seen p h = elim (Bool-cases (is_above 1 p)) [
    | inr end ↦ descends_seen n seen p (rw end refl) ∙ sym (rw (end, climbs) refl)
    | inl up ↦ elim (Bool-cases (pid_in seen p)) [
      | inl again ↦
          let (j, circle) = seen-circle p seen h again in
          descends_seen n seen p (rw (up, again) refl)
          ∙ sym (
              not_true (climbs (suc n) p)
                (no_circle (suc (suc n)) (suc n) j p (omega arith) circle))
      | inr new ↦ elim (Climb-cases (climb watch stat p)) [
        | inl e ↦ rw (up, descends, new, climbs, e) refl
        | inr (inl e) ↦ rw (up, descends, new, climbs, e) refl
        | inr (inr (q, e)) ↦
            let held =
              All-concat (Leading q) seen p
                (All-map (Leading p) (Leading q) seen
                  (λ s l. (suc l.0, Leads-step (suc l.0) s p q l.1 e)) h)
                (0, (q, e, refl)) in
            rw (up, descends, new, climbs, e) (descends-eq-climbs n (seen ++ p ∷ []) q held)
      ]
    ]
  ]

  -- The list of the pids seen changes no answer.
  pub is_descendant-eq-climbs : (p : ℕ) → is_descendant watch stat p ≡ climbs seen_max p
  unfolding is_descendant
  is_descendant-eq-climbs p = descends-eq-climbs 256 [] p tt
