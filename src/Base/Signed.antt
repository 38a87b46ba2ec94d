-- ===== src/Base/Signed.antt =====
-- What the receiver uses of `double` beside the interface `Double`: signs and infinity.
use Prim.Native.Nat.{ℕ, zero, suc, ◌+◌, ◌-◌, ◌*◌, ◌/◌}
use mathlib.Core.Bool.{Bool, true, false}
use gunnchos_gpu_nr_baseband.Base.Tests.{leb, ltb, if◌then◌else◌}
use gunnchos_gpu_nr_baseband.Base.Int.{ℤ, pos, negsuc}
use gunnchos_gpu_nr_baseband.Base.Double.{Double}

pub record Signed {ℓ} (W : Type ℓ) : Type ℓ where
  pub sub : W → W → W
  pub neg : W → W
  pub abs : W → W
  -- `static_cast<double>(n)`
  pub of_int : ℤ → W
  -- `std::numeric_limits<double>::infinity()`
  pub infinity : W
  -- `std::sqrt(x)`
  pub sqrt : W → W

-- Whole thousandths with a sign, rounded towards 0; infinity is a number beyond those of the tests.
abbrev pub negate : ℤ → ℤ
negate (pos zero) = pos zero
negate (pos (suc n)) = negsuc n
negate (negsuc n) = pos (suc n)

abbrev pub difference : ℕ → ℕ → ℤ
difference a b = if ltb a b then negsuc (b - a - 1) else pos (a - b)

abbrev pub ◌+ℤ◌ : ℤ → ℤ → ℤ

infixl 65 ◌+ℤ◌
pos a +ℤ pos b = pos (a + b)
pos a +ℤ negsuc b = difference a (suc b)
negsuc a +ℤ pos b = difference b (suc a)
negsuc a +ℤ negsuc b = negsuc (suc (a + b))

abbrev pub magnitude : ℤ → ℕ
magnitude (pos n) = n
magnitude (negsuc n) = suc n

abbrev same_sign : ℤ → ℤ → Bool
same_sign (pos a) (pos b) = true
same_sign (negsuc a) (negsuc b) = true
same_sign (pos a) (negsuc b) = false
same_sign (negsuc a) (pos b) = false

abbrev signed : Bool → ℕ → ℤ
signed true n = pos n
signed false n = negate (pos n)

abbrev pub leb_int : ℤ → ℤ → Bool
leb_int (pos a) (pos b) = leb a b
leb_int (pos a) (negsuc b) = false
leb_int (negsuc a) (pos b) = true
leb_int (negsuc a) (negsuc b) = leb b a

abbrev pub ltb_int : ℤ → ℤ → Bool
ltb_int (pos a) (pos b) = ltb a b
ltb_int (pos a) (negsuc b) = false
ltb_int (negsuc a) (pos b) = true
ltb_int (negsuc a) (negsuc b) = ltb b a

instance abbrev pub milli_int : Double ℤ
milli_int = record {
  lit = λ a b. pos (a * 1000 / b);
  add = λ x y. x +ℤ y;
  mul = λ x y. signed (same_sign x y) (magnitude x * magnitude y / 1000);
  div = λ x y. signed (same_sign x y) (magnitude x * 1000 / magnitude y);
  le = leb_int;
  lt = ltb_int;
  floor = λ x. magnitude x / 1000;
  of_nat = λ n. pos (n * 1000);
}

abbrev thousand : ℤ → ℤ
thousand (pos n) = pos (n * 1000)
thousand (negsuc n) = negate (pos (suc n * 1000))

-- The root of `n` rounded down, from `r` on, with `left` rounds to go.
abbrev root_from : ℕ → ℕ → ℕ → ℕ
root_from zero r n = r
root_from (suc left) r n =
    let later = root_from left (suc r) n in if ltb n (suc r * suc r) then r else later

instance abbrev pub milli_signed : Signed ℤ
milli_signed = record {
  sub = λ x y. x +ℤ negate y;
  neg = negate;
  abs = λ x. pos (magnitude x);
  of_int = thousand;
  infinity = pos 1_000_000_000_000;
  sqrt = λ x. pos (root_from 20000 0 (magnitude x * 1000));
}
