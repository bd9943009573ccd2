-- ===== src/Prelude/Float.antt =====
-- Go's `float64`. antt has no floating-point numbers, so the type and its operations are an
-- interface: a record of the operations that the code applies, and the laws of IEEE comparison
-- that hold of values other than NaN.
use Prim.Native.Nat.{ℕ, ◌+◌, ◌*◌, ◌-◌, ◌/◌}
use mathlib.Core.Path.{◌≡◌}
use mathlib.Core.Bool.{Bool, true, false, not}
use native.Mathlib.Omega.{arith}
use smart_buster.Prelude.Tests.{ltb, leb}
use smart_buster.Prelude.Int.{ℤ, pos}

pub record Float (F : Type 0) : Type 0 where
  -- the value nearest to the constant n / d
  pub lit : ℕ → ℕ → F
  pub add : F → F → F
  pub sub : F → F → F
  pub mul : F → F → F
  pub div : F → F → F
  pub lt : F → F → Bool
  pub le : F → F → Bool
  -- math.Sqrt, math.Round, and the conversion int(x), which drops the fraction
  pub sqrt : F → F
  pub round : F → F
  pub to_int : F → ℤ

-- Away from NaN, `<=` is a total preorder and `<` its strict part.
pub record IsOrdered (F : Type 0) ⦃f : Float F⦄ : Type 0 where
  pub le-eq-not-lt : (x y : F) → f.le x y ≡ not (f.lt y x)
  pub lt_irrefl : (x : F) → f.lt x x ≡ false
  pub lt_asymm : (x y : F) → f.lt x y ≡ true → f.lt y x ≡ false
  pub lt_cotrans : (x y z : F) → f.lt y x ≡ false → f.lt z y ≡ false → f.lt z x ≡ false

-- A concrete instance: hundredths, with truncated subtraction and division.
instance abbrev pub hundredths : Float ℕ
hundredths = record {
  lit = λ n d. 100 * n / d;
  add = λ a b. a + b;
  sub = λ a b. a - b;
  mul = λ a b. a * b / 100;
  div = λ a b. 100 * a / b;
  lt = ltb;
  le = leb;
  sqrt = λ a. a;
  round = λ a. (a + 50) / 100 * 100;
  to_int = λ a. pos (a / 100);
}

instance pub hundredths-IsOrdered : IsOrdered ℕ
hundredths-IsOrdered = ground arith
