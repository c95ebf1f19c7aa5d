-- ===== src/Prelude/Float.antt =====
-- The floating-point operations that the code uses, as an interface: nothing is assumed of their
-- rounding. `lit m n` is the literal m / n, and `truncate` the cast to `size_t`.
use Prim.Native.Nat.{ℕ}
use mathlib.Core.Bool.{Bool}

pub record Doubles : Type 1 where
  pub Double : Type 0
  pub lit : ℕ → ℕ → Double
  pub add : Double → Double → Double
  pub sub : Double → Double → Double
  pub mul : Double → Double → Double
  pub div : Double → Double → Double
  pub less : Double → Double → Bool
  pub less_eq : Double → Double → Bool
  pub truncate : Double → ℕ
