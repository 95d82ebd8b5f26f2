-- ===== src/Int.antt =====
-- Signed integers over the native numbers: the long that strtol returns, and an int32_t as its bit
-- pattern.
use tracep.Base.{Bool, false, inl, inr, ltb, refl, suc, zero, ℕ, ◌%◌, ◌-◌, ◌^◌, ◌≡◌, ◌⊎◌}

-- `negsuc n` is -(n + 1).
pub data ℤ : Type 0 where
  pos : ℕ → ℤ
  negsuc : ℕ → ℤ

abbrev pub neg : ℕ → ℤ
neg zero = pos 0
neg (suc n) = negsuc n

-- the bit pattern of `(int)v`
unfoldable pub int32 : ℤ → ℕ
int32 (pos n) = n % 2 ^ 32
int32 (negsuc n) = (2 ^ 32 - 1) - n % 2 ^ 32

-- `v > 0`
abbrev pub is_positive : ℤ → Bool
is_positive (pos n) = ltb 0 n
is_positive (negsuc n) = false

pub Int-cases : (z : ℤ) → ((n : ℕ) × (z ≡ pos n)) ⊎ ((n : ℕ) × (z ≡ negsuc n))
Int-cases (pos n) = inl (n, refl)
Int-cases (negsuc n) = inr (n, refl)
