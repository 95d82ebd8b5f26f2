-- ===== src/Dns/Attribution/Search.antt =====
-- strstr, as the filter -d of c/dns.c uses it.
use mathlib.Core.Path.{subst}
use tracep.Base.{Bool-cases, [], ap, arith, inl, inr, refl, sym, true, ◌++◌, ◌↔◌, ◌∷◌, ◌≡◌}
use tracep.Dns.Attribution.{begins, contains}
use tracep.Memory.{Bytes}

begins_sound : (s d : Bytes) → begins s d ≡ true → (post : Bytes) × (s ≡ d ++ post)
unfolding begins
begins_sound s [] h = (s, refl)
begins_sound [] (c ∷ d) h = cc
begins_sound (x ∷ s) (c ∷ d) h =
    let same : x ≡ c = ground arith in
    let (post, e) = begins_sound s d (ground arith) in (post, rw (same, e) refl)

begins_complete : (d post : Bytes) → begins (d ++ post) d ≡ true
unfolding begins
begins_complete [] post = refl
begins_complete (c ∷ d) post = ground (arith, begins_complete d post)

contains_sound : (s d : Bytes) → contains s d ≡ true → (pre post : Bytes) × (s ≡ pre ++ (d ++ post))
unfolding contains
contains_sound [] d h = let (post, e) = begins_sound [] d h in ([], post, e)
contains_sound (x ∷ s) d h = elim (Bool-cases (begins (x ∷ s) d)) [
  | inl here ↦ let (post, e) = begins_sound (x ∷ s) d here in ([], post, e)
  | inr later ↦
      let (pre, post, e) = contains_sound s d (rw (later, contains) at h) in
      (x ∷ pre, post, ap (◌∷◌ x) e)
]

contains_complete : (pre d post : Bytes) → contains (pre ++ (d ++ post)) d ≡ true
unfolding contains
contains_complete [] [] [] = refl
contains_complete [] [] (x ∷ post) = refl
contains_complete [] (c ∷ d) post = rw (begins_complete (c ∷ d) post, contains) refl
contains_complete (x ∷ pre) d post = elim (Bool-cases (begins (x ∷ (pre ++ (d ++ post))) d)) [
  | inl here ↦ rw (here, contains) refl
  | inr later ↦ rw (later, contains) (contains_complete pre d post)
]

-- The test that the filter -d makes holds exactly if the text stands somewhere in the query.
contains_iff :
    (s d : Bytes) → (contains s d ≡ true) ↔ ((pre post : Bytes) × (s ≡ pre ++ (d ++ post)))
contains_iff s d = (
  contains_sound s d,
  λ (pre, post, e). subst (λ x. contains x d ≡ true) (sym e) (contains_complete pre d post),
)
