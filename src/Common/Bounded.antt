-- ===== src/Common/Bounded.antt =====
-- Tests of every number below a bound.
use Prim.Native.Nat.{ℕ, zero, suc, ◌<◌}
use mathlib.Core.Path.{◌≡◌, sym, subst}
use mathlib.Core.Logic.{inl, inr}
use mathlib.Core.Bool.{Bool, true, ◌&&◌}
use native.Mathlib.Omega.{arith}
use fleetsuite.Common.Tests.{◌==◌, ==_iff, Bool-cases}

abbrev pub holds_below : ℕ → (ℕ → Bool) → Bool
holds_below zero p = true
holds_below (suc k) p = p k && holds_below k p

pub holds_below-at : (k : ℕ) (p : ℕ → Bool) → holds_below k p ≡ true → (n : ℕ) → n < k → p n ≡ true
holds_below-at zero p h n l = absurd (omega arith)
holds_below-at (suc k) p h n l = elim (Bool-cases (n == k)) [
  | inl e ↦ subst (λ j. p j ≡ true) (sym ((==_iff n k).0 e)) (left h)
  | inr e ↦ holds_below-at k p (right h) n (ground arith)
]
  where
    left : (p k && holds_below k p) ≡ true → p k ≡ true
    left q = ground arith

    right : (p k && holds_below k p) ≡ true → holds_below k p ≡ true
    right q = ground arith
