-- ===== src/Base/Double.antt =====
-- The source's `double`, as far as the modelled code uses it: a type with literals, operations and
-- comparisons, which the models take as an instance argument.
use Prim.Native.Nat.{ℕ, ◌+◌, ◌*◌, ◌/◌}
use mathlib.Core.Bool.{Bool}
use gunnchos_gpu_nr_baseband.Base.Tests.{leb, ltb}

pub record Double {ℓ} (W : Type ℓ) : Type ℓ where
  -- The literal `a / b`, such as 0.67 for 67 and 100.
  pub lit : ℕ → ℕ → W
  pub add : W → W → W
  pub mul : W → W → W
  pub div : W → W → W
  pub le : W → W → Bool
  pub lt : W → W → Bool
  -- `static_cast<int>(std::floor(x))` for a result that is not negative.
  pub floor : W → ℕ
  -- `static_cast<double>(n)`
  pub of_nat : ℕ → W

-- Whole thousandths, rounded down: a value for each law and each test.
instance abbrev pub milli_double : Double ℕ
milli_double = record {
  lit = λ a b. a * 1000 / b;
  add = λ x y. x + y;
  mul = λ x y. x * y / 1000;
  div = λ x y. x * 1000 / y;
  le = leb;
  lt = ltb;
  floor = λ x. x / 1000;
  of_nat = λ n. n * 1000;
}
