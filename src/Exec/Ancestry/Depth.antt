-- ===== src/Exec/Ancestry/Depth.antt =====
-- pidDepth of c/exec.c against the family tree: walks over parents from a pid to a watched pid or
-- to a pid of known depth.
use mathlib.Core.Path.{subst}
use tracep.Base.{
  Bool-cases, List, Option, Option-cases, ap, arith, false, inl, inr, none, refl, some, suc, true,
  zero, ℕ, ◌+◌, ◌<◌, ◌==◌, ◌≡◌, ◌⊎◌,
}
use tracep.Exec.Ancestry.{is_watch_root, one_more, pid_depth}
use tracep.Int.{Int-cases, pos, ℤ}
use tracep.Memory.{Returns, Within-bind, ok}

module _ (watch : List ℕ) (parent : ℕ → ℤ) (known : ℕ → Option ℕ) where
  -- `q` is the parent of `p`, and neither is watched.
  pub record Rises (p q : ℕ) : Type 0 where
    pub unwatched : is_watch_root watch p ≡ false
    pub parent_is : parent p ≡ pos q
    pub not_top : (q == 0) ≡ false

  -- The depth that a pid has.
  pub data HasDepth : ℕ → ℕ → Type 0 where
    root : {p : ℕ} → is_watch_root watch p ≡ true → HasDepth p 0
    child : {p q : ℕ} → Rises p q → is_watch_root watch q ≡ true → HasDepth p 0
    grandchild :
        {p q d : ℕ}
        → Rises p q
        → is_watch_root watch q ≡ false
        → known q ≡ some d
        → HasDepth p (d + 1)
    above :
        {p q d : ℕ}
        → Rises p q
        → is_watch_root watch q ≡ false
        → known q ≡ none
        → HasDepth q d
        → HasDepth p (d + 1)

  -- What a result says of the pid.
  abbrev pub Tells : ℕ → Option ℕ → Type 0
  Tells p none = (d : ℕ) → ¬ HasDepth p d
  Tells p (some d) = HasDepth p d

  -- the inversion
  abbrev Inverted : ℕ → ℕ → Type 0
  Inverted p d =
      ((is_watch_root watch p ≡ true) × (d ≡ 0))
      ⊎ ((q : ℕ) × Rises p q
          × (((is_watch_root watch q ≡ true) × (d ≡ 0))
              ⊎ ((is_watch_root watch q ≡ false)
                  × (((e : ℕ) × (known q ≡ some e) × (d ≡ e + 1))
                      ⊎ ((e : ℕ) × (known q ≡ none) × HasDepth q e × (d ≡ e + 1))))))

  inverted : {p d : ℕ} → HasDepth p d → Inverted p d
  inverted (root w) = inl (w, refl)
  inverted (child {q = q} r w) = inr (q, r, inl (w, refl))
  inverted (grandchild {q = q} {d = d} r w k) = inr (q, r, inr (w, inl (d, k, refl)))
  inverted (above {q = q} {d = d} r w k h) = inr (q, r, inr (w, inr (d, k, h, refl)))

  no_root : (p d : ℕ) → is_watch_root watch p ≡ false → ((q : ℕ) → ¬ Rises p q) → ¬ HasDepth p d
  no_root p d w alone h = elim (inverted h) [ inl (w', _) ↦ cc | inr (q, r, _) ↦ alone q r ]

  no_depth :
      (p q d : ℕ)
      → Rises p q
      → is_watch_root watch q ≡ false
      → known q ≡ none
      → ((e : ℕ) → ¬ HasDepth q e)
      → ¬ HasDepth p d
  no_depth p q d r w k lost h = elim (inverted h) [
    | inl (w', _) ↦ cc (w', r.unwatched)
    | inr (q', r', more) ↦
        let same : q' ≡ q = cc (r.parent_is, r'.parent_is) in
        elim more [
          | inl (w', _) ↦ cc (ap (is_watch_root watch) same, w, w')
          | inr (w', inl (e, k', _)) ↦ cc (ap known same, k, k')
          | inr (w', inr (e, k', h', _)) ↦ lost e (subst (λ x. HasDepth x e) same h')
        ]
  ]

  -- Where every parent has a smaller rank than its child, and the rank of a pid is below the
  -- rounds, pidDepth ends, and its depth is the one that the walk over the parents gives: 0 for a
  -- watched pid and for its children, one more than the depth in the table if the parent is there,
  -- and else one more than the depth of the parent; -1 says that no depth holds.
  pub pid_depth-Tells :
      (rank : ℕ → ℕ)
      → ((p q : ℕ) → parent p ≡ pos q → rank q < rank p)
      → (rounds p : ℕ) → rank p < rounds
      → Returns (Tells p) (pid_depth watch parent known rounds p)
  unfolding pid_depth
  pid_depth-Tells rank older zero p lt = absurd (omega arith)
  pid_depth-Tells rank older (suc rounds) p lt = elim (Bool-cases (is_watch_root watch p)) [
    | inl w ↦ rw (w, pid_depth) (root w)
    | inr w ↦ elim (Int-cases (parent p)) [
      | inr (n, e) ↦ rw (w, pid_depth, e) (λ d. no_root p d w (λ q r. cc (r.parent_is, e)))
      | inl (q, e) ↦ elim (Bool-cases (q == 0)) [
        | inl top ↦
            rw (w, pid_depth, e, top)
              (λ d. no_root p d w (λ q' r.
                let same : q' ≡ q = cc (r.parent_is, e) in
                cc (ap (λ x. x == 0) same, top, r.not_top)))
        | inr below ↦
            let r : Rises p q = record { unwatched = w; parent_is = e; not_top = below } in
            elim (Bool-cases (is_watch_root watch q)) [
              | inl wq ↦ rw (w, pid_depth, e, below, wq) (child r wq)
              | inr wq ↦ elim (Option-cases (known q)) [
                | inr (d, k) ↦ rw (w, pid_depth, e, below, wq, k) (grandchild r wq k)
                | inl k ↦
                    rw (w, pid_depth, e, below, wq, k)
                      (Within-bind ⊥ (Tells q) (Tells p) (pid_depth watch parent known rounds q)
                        (λ d. ok (one_more d))
                        (pid_depth-Tells rank older rounds q (omega (arith, older p q e)))
                        (elim [
                          | none ↦ λ lost d. no_depth p q d r wq k lost
                          | some d ↦ λ h. above r wq k h
                        ]))
              ]
            ]
      ]
    ]
  ]
