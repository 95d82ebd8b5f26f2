-- ===== src/Exec/Files/Args.antt =====
-- readCmdline and readEnviron of c/exec.c against the way the kernel writes arguments.
use mathlib.Core.List.{append-nil, append_assoc}
use tracep.Base.{
  All, List, [], ap, arith, false, length, length-append, refl, some, ℕ, ◌++◌, ◌==◌, ◌∙◌, ◌∷◌, ◌≡◌,
  ◌≢◌,
}
use tracep.Exec.Files.{read_args, split_nul, split_trimmed, trim_right}
use tracep.Memory.{Bytes}

-- each argument with its NUL
unfoldable pub terminated : List Bytes → Bytes
terminated [] = []
terminated (a ∷ args) = a ++ 0 ∷ terminated args

abbrev pub HasNoNul : Bytes → Type 0
HasNoNul = All (λ c. c ≢ 0)

trim_right-HasNoNul : (z : Bytes) → HasNoNul z → trim_right 0 (z ++ 0 ∷ []) ≡ z
unfolding trim_right
trim_right-HasNoNul [] h = refl
trim_right-HasNoNul (c ∷ []) h = ground (arith, h.0)
trim_right-HasNoNul (c ∷ d ∷ z) h = ground (arith, trim_right-HasNoNul (d ∷ z) h.1)

trim_right-append :
    (s t : Bytes) (c : ℕ) (r : Bytes)
    → trim_right 0 t ≡ c ∷ r
    → trim_right 0 (s ++ t) ≡ s ++ (c ∷ r)
unfolding trim_right
trim_right-append [] t c r h = h
trim_right-append (x ∷ []) t c r h = rw (trim_right-append [] t c r h)
trim_right-append (x ∷ y ∷ s) t c r h = rw (trim_right-append (y ∷ s) t c r h)

split_nul-HasNoNul : (z piece : Bytes) → HasNoNul z → split_nul piece z ≡ (piece ++ z) ∷ []
unfolding split_nul
split_nul-HasNoNul [] piece h = rw (append-nil piece)
split_nul-HasNoNul (c ∷ z) piece h =
    let go : (c == 0) ≡ false = ground (arith, h.0) in
    rw (go, split_nul)
      (split_nul-HasNoNul z (piece ++ c ∷ []) h.1
        ∙ ap (λ p. p ∷ []) (append_assoc piece (c ∷ []) z))

split_nul-terminated :
    (a piece rest : Bytes)
    → HasNoNul a
    → split_nul piece (a ++ 0 ∷ rest) ≡ (piece ++ a) ∷ split_nul [] rest
unfolding split_nul
split_nul-terminated [] piece rest h = rw (append-nil piece)
split_nul-terminated (c ∷ a) piece rest h =
    let go : (c == 0) ≡ false = ground (arith, h.0) in
    rw (go, split_nul)
      (split_nul-terminated a (piece ++ c ∷ []) rest h.1
        ∙ ap (λ p. p ∷ split_nul [] rest) (append_assoc piece (c ∷ []) a))

split_nul-args :
    (args : List Bytes) (z : Bytes)
    → All HasNoNul args
    → HasNoNul z
    → split_nul [] (terminated args ++ z) ≡ args ++ z ∷ []
unfolding terminated
split_nul-args [] z has hz = split_nul-HasNoNul z [] hz
split_nul-args (a ∷ args) z has hz = rw (
  append_assoc a (0 ∷ terminated args) z,
  split_nul-terminated a [] (terminated args ++ z) has.0,
  split_nul-args args z has.1 hz,
)

terminated-append :
    (args : List Bytes) (z : Bytes) → terminated (args ++ z ∷ []) ≡ terminated args ++ (z ++ 0 ∷ [])
unfolding terminated
terminated-append [] z = refl
terminated-append (a ∷ args) z =
    rw (terminated-append args z, append_assoc a (0 ∷ terminated args) (z ++ 0 ∷ []))

split_trimmed_cons :
    (s t : Bytes) (c : ℕ) (r : Bytes) → t ≡ s ++ (c ∷ r) → split_trimmed t ≡ split_nul [] t
unfolding split_trimmed
split_trimmed_cons s [] c r e = absurd (omega (arith, ap length e, length-append s (c ∷ r)))
split_trimmed_cons s (x ∷ t) c r e = refl

-- Arguments without NULs, the last of them not empty, each written with a NUL behind it, are read
-- back as they are.
read_args-terminated :
    (args : List Bytes) (c : ℕ) (z : Bytes)
    → All HasNoNul args
    → HasNoNul (c ∷ z)
    → read_args (some (terminated (args ++ (c ∷ z) ∷ []))) ≡ args ++ (c ∷ z) ∷ []
unfolding read_args
read_args-terminated args c z has hz =
    let whole = terminated args ++ (c ∷ z) in
    let trimmed : trim_right 0 (terminated (args ++ (c ∷ z) ∷ [])) ≡ whole =
      rw (terminated-append args (c ∷ z))
        (trim_right-append (terminated args) _ c z (trim_right-HasNoNul (c ∷ z) hz)) in
    rw trimmed
      (split_trimmed_cons (terminated args) whole c z refl ∙ split_nul-args args (c ∷ z) has hz)
