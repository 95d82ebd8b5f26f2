-- ===== src/Net/Watch/Ancestors.antt =====
-- is_descendant of c/net.c: it looks for a watched process among the ancestors of a pid.
use mathlib.Core.Logic.Or
use mathlib.Core.List.{Mem, mem-cons, not-mem-nil}
use tracep.Base.{
  ==_iff, Bool-cases, List, Option, [], arith, inl, inr, refl, suc, sym, true, zero, ℕ, ◌&&◌, ◌<◌,
  ◌==◌, ◌^◌, ◌||◌, ◌↔◌, ◌∙◌, ◌∷◌, ◌≡◌, ◌⊎◌,
}
use tracep.Memory.{Bytes}
use tracep.Net.Watch.{climb, is_above, is_descendant, pid_in, stat_ppid}
use tracep.Net.Watch.Climbs.{climbs, is_descendant-eq-climbs}

-- An int32_t above `n`.
abbrev IsAbove : ℕ → ℕ → Type 0
IsAbove n p = (n < p) × (p < 2 ^ 31)

pid_in_cons :
    (q : ℕ) (qs : List ℕ) (p : ℕ) → pid_in (q ∷ qs) p ≡ true → (p ≡ q) ⊎ (pid_in qs p ≡ true)
unfolding pid_in
pid_in_cons q qs p h = elim (Bool-cases (q == p)) [
  | inl here ↦ inl (sym ((==_iff q p).0 here))
  | inr on ↦ inr (rw on at h)
]

pid_in-Mem : (qs : List ℕ) (p : ℕ) → pid_in qs p ≡ true → Mem p qs
unfolding pid_in
pid_in-Mem [] p h = cc
pid_in-Mem (q ∷ qs) p h = elim (pid_in_cons q qs p h) [
  | inl here ↦ mem-cons.1 (Or.inl here)
  | inr on ↦ mem-cons.1 (Or.inr (pid_in-Mem qs p on))
]

Mem-pid_in : (qs : List ℕ) (p : ℕ) → Mem p qs → pid_in qs p ≡ true
unfolding pid_in
Mem-pid_in [] p m = absurd (not-mem-nil m)
Mem-pid_in (q ∷ qs) p m =
    Or.elim (hlevel) (mem-cons.0 m) (λ e. ground (arith, e))
      (λ on. ground (arith, Mem-pid_in qs p on))

module _ (watch : List ℕ) (stat : ℕ → Option Bytes) where
  abbrev parent : ℕ → ℕ
  parent p = stat_ppid (stat p)

  -- One of the first `n` ancestors of a pid is watched, and the processes from the pid up to the child
  -- of that ancestor have pids above 1 and parents above 0.
  pub data HasWatched : ℕ → ℕ → Type 0 where
    child :
        {n p : ℕ} → IsAbove 1 p → IsAbove 0 (parent p) → Mem (parent p) watch → HasWatched (suc n) p
    below :
        {n p : ℕ}
        → IsAbove 1 p
        → IsAbove 0 (parent p)
        → HasWatched n (parent p)
        → HasWatched (suc n) p

  climbs-suc :
      (n p : ℕ)
      → climbs watch stat (suc n) p ≡ (
          is_above 1 p
          && (is_above 0 (parent p) && (pid_in watch (parent p) || climbs watch stat n (parent p))))
  unfolding climbs climb
  climbs-suc n p = elim (Bool-cases (is_above 1 p)) [
    | inr end ↦ rw (climbs, end) refl
    | inl up ↦ elim (Bool-cases (is_above 0 (parent p))) [
      | inr orphan ↦ rw (climbs, up, climb, orphan) refl
      | inl born ↦ elim (Bool-cases (pid_in watch (parent p))) [
        | inl e ↦ rw (climbs, up, climb, born, e) refl
        | inr e ↦ rw (climbs, up, climb, born, e) refl
      ]
    ]
  ]

  climbs-HasWatched : (n p : ℕ) → climbs watch stat n p ≡ true → HasWatched n p
  unfolding climbs
  climbs-HasWatched zero p h = cc
  climbs-HasWatched (suc n) p h =
      let h' = sym (climbs-suc n p) ∙ h in
      let up : IsAbove 1 p = ground (arith, h') in
      let born : IsAbove 0 (parent p) = ground (arith, h') in
      elim (Bool-cases (pid_in watch (parent p))) [
        | inl e ↦ child up born (pid_in-Mem watch (parent p) e)
        | inr e ↦ below up born (climbs-HasWatched n (parent p) (ground (arith, h', e)))
      ]

  HasWatched-climbs : (n p : ℕ) → HasWatched n p → climbs watch stat n p ≡ true
  HasWatched-climbs zero p h = elim h [ ]
  HasWatched-climbs (suc n) p (child up born m) =
      climbs-suc n p ∙ ground (arith, up, born, Mem-pid_in watch (parent p) m)
  HasWatched-climbs (suc n) p (below up born h) =
      climbs-suc n p ∙ ground (arith, up, born, HasWatched-climbs n (parent p) h)

  -- is_descendant holds of a pid exactly if one of its first 256 ancestors is watched, where each
  -- process from the pid up to the child of that ancestor has a pid above 1 and a parent above 0.
  pub is_descendant-HasWatched : (p : ℕ) → (is_descendant watch stat p ≡ true) ↔ HasWatched 256 p
  is_descendant-HasWatched p =
      let same = is_descendant-eq-climbs watch stat p in
      (λ h. climbs-HasWatched 256 p (sym same ∙ h), λ h. same ∙ HasWatched-climbs 256 p h)
