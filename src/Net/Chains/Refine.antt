-- ===== src/Net/Chains/Refine.antt =====
-- The chained tables of c/net.c against a map from keys to entries.
use mathlib.Core.Option
use mathlib.Core.Path.{subst}
use tracep.Base.{
  Bool-cases, List, Option-cases, [], ap, arith, false, inl, inr, length, none, refl, some, sym,
  take_all, true, ◌-◌, ◌∙◌, ◌∷◌, ◌≡◌, ◌≢◌, ◌≤◌, ◌⊎◌,
}
use tracep.Memory.{Bytes}
use tracep.Net.Chains.{Keyed, delete_in, find_in, put_in, write_in}
use tracep.Text.{same_text, same_text_iff}

pub Text-cases :
    (a b : Bytes) → ((same_text a b ≡ true) × (a ≡ b)) ⊎ ((same_text a b ≡ false) × (a ≢ b))
Text-cases a b = elim (Bool-cases (same_text a b)) [
  | inl e ↦ inl (e, (same_text_iff a b).0 e)
  | inr e ↦ inr (e, λ s. cc ((same_text_iff a b).1 s))
]

-- A change of an entry that leaves its key.
abbrev pub KeepsKey : {E : Type 0} → Keyed E → (E → E) → Type 0
KeepsKey {E} K f = (e : E) → K.key (f e) ≡ K.key e

module _ {E : Type 0} (K : Keyed E) where
  -- No key stands twice in a chain.
  abbrev pub Distinct : List E → Type 0
  Distinct [] = Unit
  Distinct (e ∷ c) = (find_in K (K.key e) c ≡ none) × Distinct c

  module _ (k : Bytes) where
    module _ (f : E → E) (keeps : KeepsKey K f) where
      find_in-write_in_self :
          (c : List E) → find_in K k (write_in K k f c) ≡ Option.map f (find_in K k c)
      unfolding find_in write_in
      find_in-write_in_self [] = refl
      find_in-write_in_self (e ∷ c) =
          ground (arith, keeps e, Bool-cases (same_text (K.key e) k), find_in-write_in_self c)

      find_in-write_in_ne :
          (j : Bytes) (c : List E) → k ≢ j → find_in K j (write_in K k f c) ≡ find_in K j c
      unfolding find_in write_in
      find_in-write_in_ne j [] ne = refl
      find_in-write_in_ne j (e ∷ c) ne = elim (Text-cases (K.key e) k) [
        | inl (t, same) ↦ elim (Text-cases (K.key e) j) [
          | inl (u, too) ↦ absurd (ne (sym same ∙ too))
          | inr (u, other) ↦ rw (t, keeps e, u) refl
        ]
        | inr (t, other) ↦ rw (t, find_in-write_in_ne j c ne) refl
      ]

      find_in-write_in-none :
          (j : Bytes) (c : List E) → find_in K j c ≡ none → find_in K j (write_in K k f c) ≡ none
      find_in-write_in-none j c absent = elim (Text-cases k j) [
        | inl (t, same) ↦
            subst (λ (i : Bytes). find_in K i (write_in K k f c) ≡ none) same
              (find_in-write_in_self c
                ∙ ap (Option.map f) (subst (λ (i : Bytes). find_in K i c ≡ none) (sym same) absent))
        | inr (t, ne) ↦ find_in-write_in_ne j c ne ∙ absent
      ]

      pub write_in-Distinct : (c : List E) → Distinct c → Distinct (write_in K k f c)
      unfolding write_in
      write_in-Distinct [] h = h
      write_in-Distinct (e ∷ c) h = elim (Bool-cases (same_text (K.key e) k)) [
        | inl here ↦ rw here (rw (keeps e) h.0, h.1)
        | inr on ↦ rw on (find_in-write_in-none (K.key e) c h.0, write_in-Distinct c h.1)
      ]

    pub find_in-delete_in_ne :
        (j : Bytes) (c : List E) → k ≢ j → find_in K j (delete_in K k c) ≡ find_in K j c
    unfolding find_in delete_in
    find_in-delete_in_ne j [] ne = refl
    find_in-delete_in_ne j (e ∷ c) ne = elim (Text-cases (K.key e) k) [
      | inl (t, same) ↦ elim (Text-cases (K.key e) j) [
        | inl (u, too) ↦ absurd (ne (sym same ∙ too))
        | inr (u, other) ↦ rw (t, u) refl
      ]
      | inr (t, other) ↦ rw (t, find_in-delete_in_ne j c ne) refl
    ]

    pub find_in-delete_in_self : (c : List E) → Distinct c → find_in K k (delete_in K k c) ≡ none
    unfolding find_in delete_in
    find_in-delete_in_self [] h = refl
    find_in-delete_in_self (e ∷ c) h = elim (Text-cases (K.key e) k) [
      | inl (t, same) ↦ rw t (subst (λ (i : Bytes). find_in K i c ≡ none) same h.0)
      | inr (t, other) ↦ rw (t, find_in, t) (find_in-delete_in_self c h.1)
    ]

    find_in-delete_in-none :
        (j : Bytes) (c : List E)
        → Distinct c
        → find_in K j c ≡ none
        → find_in K j (delete_in K k c) ≡ none
    find_in-delete_in-none j c h absent = elim (Text-cases k j) [
      | inl (t, same) ↦
          subst (λ (i : Bytes). find_in K i (delete_in K k c) ≡ none) same
            (find_in-delete_in_self c h)
      | inr (t, ne) ↦ find_in-delete_in_ne j c ne ∙ absent
    ]

    pub delete_in-Distinct : (c : List E) → Distinct c → Distinct (delete_in K k c)
    unfolding delete_in
    delete_in-Distinct [] h = h
    delete_in-Distinct (e ∷ c) h = elim (Bool-cases (same_text (K.key e) k)) [
      | inl here ↦ rw here h.1
      | inr on ↦ rw on (find_in-delete_in-none (K.key e) c h.1 h.0, delete_in-Distinct c h.1)
    ]

    module _ (fits : length k ≤ K.room - 1) (f : E → E) (keeps : KeepsKey K f) where
      key-new : K.key (f (K.fresh k)) ≡ k
      key-new = keeps (K.fresh k) ∙ (K.key-fresh k ∙ take_all (K.room - 1) k fits)

      put_in_new : (c : List E) → find_in K k c ≡ none → put_in K k f c ≡ f (K.fresh k) ∷ c
      unfolding put_in
      put_in_new c new = rw (new, put_in) refl

      put_in_old : (c : List E) (e : E) → find_in K k c ≡ some e → put_in K k f c ≡ write_in K k f c
      unfolding put_in
      put_in_old c e old = rw (old, put_in) refl

      pub put_in-Distinct : (c : List E) → Distinct c → Distinct (put_in K k f c)
      put_in-Distinct c h = elim (Option-cases (find_in K k c)) [
        | inl new ↦ rw (put_in_new c new) (rw key-new new, h)
        | inr (e, old) ↦ rw (put_in_old c e old) (write_in-Distinct f keeps c h)
      ]

      pub find_in-put_in_self :
          (c : List E)
          → find_in K k (put_in K k f c)
            ≡ some (f (elim (find_in K k c) [ none ↦ K.fresh k | some e ↦ e ]))
      unfolding find_in
      find_in-put_in_self c = elim (Option-cases (find_in K k c)) [
        | inl new ↦ rw (put_in_new c new, key-new, new, (same_text_iff k k).1 refl) refl
        | inr (e, old) ↦ rw (put_in_old c e old, find_in-write_in_self f keeps c, old) refl
      ]

      pub find_in-put_in_ne :
          (j : Bytes) (c : List E) → k ≢ j → find_in K j (put_in K k f c) ≡ find_in K j c
      find_in-put_in_ne j c ne = elim (Option-cases (find_in K k c)) [
        | inl new ↦ rw (put_in_new c new) (
            unfold find_in in
            elim (Text-cases (K.key (f (K.fresh k))) j) [
              | inl (t, same) ↦ absurd (ne (sym key-new ∙ same))
              | inr (t, other) ↦ rw t refl
            ])
        | inr (e, old) ↦ rw (put_in_old c e old) (find_in-write_in_ne f keeps j c ne)
      ]
