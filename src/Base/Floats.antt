-- ===== src/Base/Floats.antt =====
-- Go's float64, of which the planner uses conversions, arithmetic and comparisons: the type and its
-- operations are a parameter. The one law holds of IEEE 754, NaN included.
use Prim.Native.Nat.{ℕ, ◌-◌, ◌*◌, ◌/◌}
use mathlib.Core.Path.{◌≡◌}
use mathlib.Core.Bool.{Bool, false}
use native.Mathlib.Omega.{arith}
use k8s_dencer.Base.Tests.{ltb, nat_eq, ◌==◌}

pub record Float64 : Type 1 where
  pub F : Type 0
  pub of_int64 : ℕ → F
  pub to_int64 : F → ℕ
  pub sub : F → F → F
  pub mul : F → F → F
  pub div : F → F → F
  pub lt : F → F → Bool
  pub eq : F → F → Bool
  pub lt_irrefl : (a : F) → lt a a ≡ false

pub ltb_irrefl : (a : ℕ) → ltb a a ≡ false
ltb_irrefl a = ground arith

-- Thousandths of values that are not negative: an instance to run the model with.
abbrev pub thousandths : Float64
thousandths = record {
  F = ℕ;
  of_int64 = λ n. n * 1000;
  to_int64 = λ x. x / 1000;
  sub = λ a b. a - b;
  mul = λ a b. a * b / 1000;
  div = λ a b. a * 1000 / b;
  lt = ltb;
  eq = λ a b. a == b;
  lt_irrefl = ltb_irrefl;
}
