-- ===== src/Common/Rotation.antt =====
-- The pool of buffers of c/common.c over several calls.
use tracep.Base.{
  List, [], ap, arith, false, length, refl, ℕ, ◌%◌, ◌+◌, ◌<◌, ◌==◌, ◌∙◌, ◌∷◌, ◌≡◌, ◌≢◌,
}
use tracep.Common.{Pool, fill, pool_n}
use tracep.Memory.{Bytes}

pub fill_all : Pool → List Bytes → Pool
unfolding fill
fill_all p [] = p
fill_all p (t ∷ ts) = fill_all (fill p t).0 ts

slot_kept :
    (ts : List Bytes) (p : Pool) (k : ℕ)
    → ((j : ℕ) → j < length ts → (p.slot + j) % pool_n ≢ k)
    → (fill_all p ts).slots k ≡ p.slots k
unfolding fill_all
slot_kept [] p k other = refl
slot_kept (t ∷ ts) p k other =
    let here : p.slot % pool_n ≢ k =
      λ e. other 0 (omega arith) (ap (λ n. n % pool_n) (omega arith) ∙ e) in
    let unused : (k == p.slot % pool_n) ≡ false = ground arith in
    slot_kept ts (fill p t).0 k
      (λ j lt e. other (j + 1) (omega arith) (ap (λ n. n % pool_n) (omega arith) ∙ e))
    ∙ rw unused

-- The text that a call puts into the pool is still in its slot after up to 15 more calls.
fill_survives :
    (p : Pool) (text : Bytes) (ts : List Bytes)
    → length ts < pool_n
    → (fill_all (fill p text).0 ts).slots (fill p text).1 ≡ text
unfolding fill
fill_survives p text ts lt =
    slot_kept ts (fill p text).0 (p.slot % pool_n) (λ j h. omega arith) ∙ ground arith
