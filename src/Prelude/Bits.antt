-- ===== src/Prelude/Bits.antt =====
-- A test on bytes is settled by running it on every value below a bound.
use Prim.Native.Nat.{ℕ, zero, suc, ◌<◌}
use mathlib.Core.Path.{◌≡◌}
use mathlib.Core.Bool.{Bool, true, ◌&&◌}
use native.Mathlib.Omega.{arith}

-- The test passes at every number below the bound.
unfoldable pub passes_below : (ℕ → Bool) → ℕ → Bool
passes_below test zero = true
passes_below test (suc bound) = passes_below test bound && test bound

-- A number below the bound is one of those that were run.
pub passes_at :
    (test : ℕ → Bool) (bound : ℕ)
    → passes_below test bound ≡ true
    → (n : ℕ) → n < bound
    → test n ≡ true
unfolding passes_below
passes_at test zero run n small = elim small [ ]
passes_at test (suc bound) run n small = ground (arith, passes_at test bound (ground arith) n)
