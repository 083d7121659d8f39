-- ===== src/Base/Tables.antt =====
-- Facts about a small range, checked value by value.
use Prim.Native.Nat.{ℕ, zero, suc, ◌<◌}
use mathlib.Core.Path.{◌≡◌}
use mathlib.Core.Bool.{Bool, true, false}
use native.Mathlib.Omega.{arith}

-- `test` holds of every number below `n`.
unfoldable pub holds_below : ℕ → (ℕ → Bool) → Bool
holds_below zero test = true
holds_below (suc n) test =
    let rest = holds_below n test in elim (test n) [ true ↦ rest | false ↦ false ]

pub holds_below-at :
    (test : ℕ → Bool) (n : ℕ) → holds_below n test ≡ true → (i : ℕ) → i < n → test i ≡ true
unfolding holds_below
holds_below-at test zero e i h = absurd (omega arith)
holds_below-at test (suc n) e i h = ground (arith, holds_below-at test n (ground arith) i)
