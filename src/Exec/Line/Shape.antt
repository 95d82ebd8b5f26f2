-- ===== src/Exec/Line/Shape.antt =====
-- indentStr of c/exec.c.
use Prim.Native.Nat.{min}
use mathlib.Core.List.{append-nil, append_assoc}
use tracep.Base.{
  Bool-cases, [], ap, arith, false, inl, inr, length, length-append, ltb, ltb→ge, ltb→lt, replicate,
  suc, sym, zero, ℕ, ◌*◌, ◌++◌, ◌+◌, ◌-◌, ◌/◌, ◌<◌, ◌==◌, ◌∙◌, ◌∷◌, ◌≡◌,
}
use tracep.Exec.Line.{indent_loop, indent_str}
use tracep.Memory.{Bytes}

replicate_more :
    (w : Bytes) (k : ℕ)
    → (w ++ b' ' ∷ b' ' ∷ []) ++ replicate k b' ' ≡ w ++ replicate (suc (suc k)) b' '
replicate_more w k = append_assoc w (b' ' ∷ b' ' ∷ []) (replicate k b' ')

indent_loop_lem :
    (n size : ℕ) (w : Bytes)
    → length w < size
    → indent_loop n size w ≡ w ++ replicate (2 * min n ((size - 1 - length w) / 2)) b' '
unfolding indent_loop
indent_loop_lem zero size w fits =
    let none_left : 2 * min 0 ((size - 1 - length w) / 2) ≡ 0 = omega arith in
    rw none_left (sym (append-nil w))
indent_loop_lem (suc n) size w fits = elim (Bool-cases (ltb (length w + 2) size)) [
  | inl room ↦
      let lt = ltb→lt (length w + 2) size room in
      let longer = length-append w (b' ' ∷ b' ' ∷ []) in
      let k = 2 * min n ((size - 1 - length (w ++ b' ' ∷ b' ' ∷ [])) / 2) in
      let count : suc (suc k) ≡ 2 * min (suc n) ((size - 1 - length w) / 2) =
        omega (arith, longer) in
      rw (room, indent_loop)
        (indent_loop_lem n size (w ++ b' ' ∷ b' ' ∷ []) (omega (arith, longer))
          ∙ (replicate_more w k ∙ ap (λ m. w ++ replicate m b' ') count))
  | inr full ↦
      let ge = ltb→ge (length w + 2) size full in
      let none_left : 2 * min (suc n) ((size - 1 - length w) / 2) ≡ 0 = omega arith in
      rw (full, indent_loop, none_left) (sym (append-nil w))
]

-- Where lines are not flat and the buffer is not empty, the indentation is two spaces for each
-- level of the depth, up to as many levels as the buffer takes with its NUL.
indent_str_lem :
    (depth size : ℕ)
    → 0 < size
    → indent_str false depth size ≡ replicate (2 * min depth ((size - 1) / 2)) b' '
unfolding indent_str
indent_str_lem depth size pos_size =
    let go : (size == 0) ≡ false = ground arith in
    let count : 2 * min depth ((size - 1 - 0) / 2) ≡ 2 * min depth ((size - 1) / 2) = omega arith in
    rw (go, indent_str) (indent_loop_lem depth size [] pos_size ∙ ap (λ m. replicate m b' ') count)
