-- ===== src/Tls/Names/Kept.antt =====
-- set_sni and get_sni of c/tls.c.

use mathlib.Core.Option.{some_inj}
use mathlib.Core.Path.{subst}
use tracep.Base.{
  ==_iff, Bool-cases, Option, Option-cases, [], arith, false, get_elem?, inl, inr, length, none,
  refl, set, some, suc, sym, take, true, zero, ℕ, ◌%◌, ◌<◌, ◌∙◌, ◌∷◌, ◌≡◌, ◌≢◌, ◌⊎◌,
}
use tracep.Memory.{Bytes}
use tracep.Tls.Names.{SniSlots, free_slot, get_sni, is_of, max_sni, own_slot, set_sni, slot_for}

-- The slot that own_slot finds, and what a write there does.
own_slot_cases :
    (pid : ℕ) (x : Option (ℕ × Bytes)) (c : SniSlots) (i : ℕ)
    → own_slot pid (x ∷ c) ≡ some i
    → ((is_of pid x ≡ true) × (i ≡ 0))
      ⊎ ((is_of pid x ≡ false) × ((j : ℕ) × (i ≡ suc j) × (own_slot pid c ≡ some j)))
unfolding own_slot
own_slot_cases pid x c i e = elim (Bool-cases (is_of pid x)) [
  | inl here ↦ inl (here, sym (some_inj.0 (rw (here, own_slot) at e)))
  | inr on ↦ elim (Option-cases (own_slot pid c)) [
    | inl absent ↦ absurd (ground (arith, rw (on, own_slot, absent) at e))
    | inr (j, found) ↦ inr (on, (j, sym (some_inj.0 (rw (on, own_slot, found) at e)), found))
  ]
]

get_sni_here : (pid : ℕ) (host : Bytes) (c : SniSlots) → get_sni pid (some (pid, host) ∷ c) ≡ host
unfolding get_sni
get_sni_here pid host c = rw ((==_iff pid pid).1 refl) refl

get_sni_on :
    (pid : ℕ) (x : Option (ℕ × Bytes)) (c : SniSlots)
    → is_of pid x ≡ false
    → get_sni pid (x ∷ c) ≡ get_sni pid c
unfolding get_sni is_of
get_sni_on pid none c e = refl
get_sni_on pid (some (q, host)) c e = rw e refl

get_sni-own :
    (pid : ℕ) (host : Bytes) (c : SniSlots) (i : ℕ)
    → own_slot pid c ≡ some i
    → get_sni pid (set c i (some (pid, host))) ≡ host
unfolding own_slot
get_sni-own pid host [] i e = cc
get_sni-own pid host (x ∷ c) i e = elim (own_slot_cases pid x c i e) [
  | inl (here, zero_i) ↦ rw zero_i (get_sni_here pid host c)
  | inr (on, (j, suc_i, found)) ↦ rw suc_i (get_sni_on pid x _ on ∙ get_sni-own pid host c j found)
]

own_slot-none :
    (pid : ℕ) (x : Option (ℕ × Bytes)) (c : SniSlots)
    → own_slot pid (x ∷ c) ≡ none
    → (is_of pid x ≡ false) × (own_slot pid c ≡ none)
unfolding own_slot
own_slot-none pid x c e = elim (Bool-cases (is_of pid x)) [
  | inl here ↦ absurd (ground (arith, rw (here, own_slot) at e))
  | inr on ↦ elim (Option-cases (own_slot pid c)) [
    | inl absent ↦ (on, absent)
    | inr (j, found) ↦ absurd (ground (arith, rw (on, own_slot, found) at e))
  ]
]

get_sni-new :
    (pid : ℕ) (host : Bytes) (c : SniSlots) (i : ℕ)
    → own_slot pid c ≡ none
    → i < length c
    → get_sni pid (set c i (some (pid, host))) ≡ host
get_sni-new pid host [] i e lt = absurd (omega arith)
get_sni-new pid host (x ∷ c) zero e lt = get_sni_here pid host c
get_sni-new pid host (x ∷ c) (suc i) e lt =
    let (on, absent) = own_slot-none pid x c e in
    get_sni_on pid x _ on ∙ get_sni-new pid host c i absent (omega arith)

free_slot-Free :
    (c : SniSlots) (i : ℕ) → free_slot c ≡ some i → (i < length c) × (get_elem? c i ≡ some none)
unfolding free_slot
free_slot-Free [] i e = cc
free_slot-Free (none ∷ c) i e = let zero_i = sym (some_inj.0 e) in rw zero_i (omega arith, refl)
free_slot-Free (some x ∷ c) i e = elim (Option-cases (free_slot c)) [
  | inl absent ↦ absurd (ground (arith, rw absent at e))
  | inr (j, found) ↦
      let suc_i = sym (some_inj.0 (rw found at e)) in
      let (lt, at_j) = free_slot-Free c j found in rw suc_i (omega arith, at_j)
]

-- A write over an empty slot, or over one of another pid, leaves the name of `q`.
get_sni-other :
    (q pid : ℕ) (host : Bytes) (c : SniSlots) (i : ℕ) (x : Option (ℕ × Bytes))
    → get_elem? c i ≡ some x
    → is_of q x ≡ false
    → q ≢ pid
    → get_sni q (set c i (some (pid, host))) ≡ get_sni q c
unfolding is_of get_sni
get_sni-other q pid host [] i x e off ne = cc
get_sni-other q pid host (y ∷ c) zero x e off ne =
    let same : y ≡ x = some_inj.0 e in
    get_sni_on q (some (pid, host)) c (ground (arith, ne))
    ∙ sym (get_sni_on q y c (subst (λ z. is_of q z ≡ false) (sym same) off))
get_sni-other q pid host (none ∷ c) (suc i) x e off ne = get_sni-other q pid host c i x e off ne
get_sni-other q pid host (some (p, h) ∷ c) (suc i) x e off ne =
    rw (get_sni-other q pid host c i x e off ne) refl

-- what own_slot finds is the slot of the pid
own_slot-IsOwn :
    (q pid : ℕ) (c : SniSlots) (i : ℕ)
    → own_slot pid c ≡ some i
    → q ≢ pid
    → (x : Option (ℕ × Bytes)) × (get_elem? c i ≡ some x) × (is_of q x ≡ false)
unfolding own_slot is_of
own_slot-IsOwn q pid [] i e ne = cc
own_slot-IsOwn q pid (none ∷ c) i e ne = elim (own_slot_cases pid none c i e) [
  | inl (here, zero_i) ↦ cc
  | inr (on, (j, suc_i, found)) ↦ rw suc_i (own_slot-IsOwn q pid c j found ne)
]
own_slot-IsOwn q pid (some (p, h) ∷ c) i e ne = elim (own_slot_cases pid (some (p, h)) c i e) [
  | inl (here, zero_i) ↦ rw zero_i (some (p, h), refl, ground (arith, here, ne))
  | inr (on, (j, suc_i, found)) ↦ rw suc_i (own_slot-IsOwn q pid c j found ne)
]

-- The array has a slot of the pid, or a free one.
abbrev pub HasRoom : ℕ → SniSlots → Type 0
HasRoom pid c = (own_slot pid c ≢ none) ⊎ (free_slot c ≢ none)

none_of : (q : ℕ) → is_of q none ≡ false
unfolding is_of
none_of q = refl

module _ (pid : ℕ) (host : Bytes) (c : SniSlots) (size : length c ≡ max_sni) where
  slot_own : (i : ℕ) → own_slot pid c ≡ some i → slot_for pid c ≡ i
  unfolding slot_for
  slot_own i e = rw (e, slot_for) refl

  slot_free : (i : ℕ) → own_slot pid c ≡ none → free_slot c ≡ some i → slot_for pid c ≡ i
  unfolding slot_for
  slot_free i e f = rw (e, slot_for, f) refl

  slot_full : own_slot pid c ≡ none → free_slot c ≡ none → slot_for pid c ≡ pid % max_sni
  unfolding slot_for
  slot_full e f = rw (e, slot_for, f) refl

  set_sni_at :
      (i : ℕ) → slot_for pid c ≡ i → set_sni pid host c ≡ set c i (some (pid, take 255 host))
  unfolding set_sni
  set_sni_at i e = rw e refl

  get_sni_self : get_sni pid (set_sni pid host c) ≡ take 255 host
  get_sni_self = elim (Option-cases (own_slot pid c)) [
    | inr (i, e) ↦ rw (set_sni_at i (slot_own i e)) (get_sni-own pid (take 255 host) c i e)
    | inl e ↦ elim (Option-cases (free_slot c)) [
      | inr (i, f) ↦
          rw (set_sni_at i (slot_free i e f))
            (get_sni-new pid (take 255 host) c i e (free_slot-Free c i f).0)
      | inl f ↦
          rw (set_sni_at (pid % max_sni) (slot_full e f))
            (get_sni-new pid (take 255 host) c (pid % max_sni) e (omega (arith, size)))
    ]
  ]

  get_sni_ne : (q : ℕ) → q ≢ pid → HasRoom pid c → get_sni q (set_sni pid host c) ≡ get_sni q c
  get_sni_ne q ne room = elim (Option-cases (own_slot pid c)) [
    | inr (i, e) ↦
        let (x, at_i, off) = own_slot-IsOwn q pid c i e ne in
        rw (set_sni_at i (slot_own i e)) (get_sni-other q pid (take 255 host) c i x at_i off ne)
    | inl e ↦ elim (Option-cases (free_slot c)) [
      | inr (i, f) ↦
          rw (set_sni_at i (slot_free i e f))
            (get_sni-other q pid (take 255 host) c i none (free_slot-Free c i f).1 (none_of q) ne)
      | inl f ↦ absurd (elim room [ inl has_own ↦ has_own e | inr free_one ↦ free_one f ])
    ]
  ]

  -- On an array of MAX_SNI slots, get_sni gives for the pid the name that set_sni was given, cut to
  -- 255 characters; and if the array has a slot of the pid or a free one, every other pid keeps its
  -- name.
  pub get_sni-set_sni :
      (get_sni pid (set_sni pid host c) ≡ take 255 host)
      × ((q : ℕ) → q ≢ pid → HasRoom pid c → get_sni q (set_sni pid host c) ≡ get_sni q c)
  get_sni-set_sni = (get_sni_self, get_sni_ne)
