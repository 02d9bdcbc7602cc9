-- ===== src/Base/Whole.antt =====
-- Numbers without fractions and without signs in place of those of type `double`, for runs of the
-- code: roots are left out, and the logarithm is 0.
use Prim.Native.Nat.{ℕ, ◌+◌, ◌-◌, ◌*◌, ◌/◌}
use mathlib.Core.Bool.{true, false}
use native.Mathlib.Omega.{arith}
use release.Base.Tests.{ltb, ◌==◌}
use release.Base.Int.{pos, pos_part}
use release.Base.Double.{Double, IsStrict}

pub ltb-IsStrict : IsStrict ltb
ltb-IsStrict = record { irrefl = λ x. ground arith; trans = λ x y z. ground arith }

instance unfoldable pub whole : Double ℕ
whole = record {
  lt = ltb;
  eq = λ a b. a == b;
  add = λ a b. a + b;
  sub = λ a b. a - b;
  mul = λ a b. a * b;
  div = λ a b. a / b;
  abs = λ a. a;
  sqrt = λ a. a;
  exp = λ a. 1;
  log = λ a. 0;
  decimal = λ n k. elim (k == 0) [ true ↦ n | false ↦ n / 10 ];
  of_int = λ i. pos_part i;
  trunc = λ a. pos a;
  strict = ltb-IsStrict;
}
