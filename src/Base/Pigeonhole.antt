-- ===== src/Base/Pigeonhole.antt =====
-- No more than `b` numbers below `b` are different.
use Prim.Native.Nat.{ℕ, zero, suc, ◌≤◌, ◌<◌}
use mathlib.Core.Path.{◌≡◌}
use native.Mathlib.Omega.{arith}
use tracep.Base.Tests.{◌==◌, if◌then◌else◌}

-- `q` with its value at `n` put in for `b`, which frees `b`
abbrev closed_up : (ℕ → ℕ) → ℕ → ℕ → ℕ → ℕ
closed_up q n b k = if q k == b then q n else q k

pub pigeonhole :
    (n b : ℕ) (q : ℕ → ℕ)
    → ((k : ℕ) → k < n → q k < b)
    → ((j k : ℕ) → j < n → k < n → q j ≡ q k → j ≡ k)
    → n ≤ b
pigeonhole zero b q below inj = omega arith
pigeonhole (suc n) zero q below inj = absurd (omega (arith, below 0 (omega arith)))
pigeonhole (suc n) (suc b) q below inj = omega (
  arith,
  pigeonhole n b (closed_up q n b) (λ k h. ground (arith, below k, below n, inj k n))
      (λ j k hj hk e. ground (arith, inj j k, inj j n, inj k n)),
)
