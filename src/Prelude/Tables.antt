-- ===== src/Prelude/Tables.antt =====
-- Facts on finitely many numbers, decided by one run of a test.
use Prim.Native.Nat.{ℕ, zero, suc, ◌<◌}
use mathlib.Core.Path.{◌≡◌}
use mathlib.Core.Bool.{Bool, true, ◌&&◌}
use native.Mathlib.Omega.{arith}

-- The test accepts every number before `size`.
unfoldable pub accepts : (ℕ → Bool) → ℕ → Bool
accepts test zero = true
accepts test (suc last) = accepts test last && test last

pub accepts-entry :
    (test : ℕ → Bool) (size entry : ℕ) → entry < size → accepts test size ≡ true → test entry ≡ true
unfolding accepts
accepts-entry test zero entry below run = absurd (omega (arith, below))
accepts-entry test (suc last) entry below run =
    ground (arith, below, run, accepts-entry test last entry)
