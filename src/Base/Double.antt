-- ===== src/Base/Double.antt =====
-- The type `double` of C and of its mathematical library, as far as the modelled code uses them.
use Prim.Native.Nat.{ℕ}
use mathlib.Core.Path.{◌≡◌}
use mathlib.Core.Bool.{Bool, true, false}
use release.Base.Int.{ℤ}

-- What the code relies on: `<` is irreflexive and transitive, as it is for all values of
-- IEEE 754, those that are not numbers included.
pub record IsStrict {ℓ} {F : Type ℓ} (lt : F → F → Bool) : Type ℓ where
  pub irrefl : (x : F) → lt x x ≡ false
  pub trans : (x y z : F) → lt x y ≡ true → lt y z ≡ true → lt x z ≡ true

-- `decimal n k` is the constant n / 10^k, and `trunc` the conversion to `int`.
pub record Double {ℓ} (F : Type ℓ) : Type ℓ where
  pub lt : F → F → Bool
  pub eq : F → F → Bool
  pub add : F → F → F
  pub sub : F → F → F
  pub mul : F → F → F
  pub div : F → F → F
  pub abs : F → F
  pub sqrt : F → F
  pub exp : F → F
  pub log : F → F
  pub decimal : ℕ → ℕ → F
  pub of_int : ℤ → F
  pub trunc : F → ℤ
  pub strict : IsStrict lt
