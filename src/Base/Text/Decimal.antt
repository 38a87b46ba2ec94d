-- ===== src/Base/Text/Decimal.antt =====
-- Decimal output read back: by `stoul`, and through a search for a quoted key.
use Prim.Native.Nat.{ℕ, zero, suc, ◌+◌, ◌-◌, ◌*◌, ◌/◌, ◌%◌, ◌^◌, ◌≤◌, ◌<◌}
use mathlib.Core.Path.{◌≡◌, refl, ap, ◌∙◌}
use mathlib.Core.Logic.{◌≢◌}
use mathlib.Core.List.{[], ◌∷◌, ◌++◌}
use native.Mathlib.Omega.{arith}
use gunnchos_gpu_nr_baseband.Base.Lists.{All, All-append}
use gunnchos_gpu_nr_baseband.Base.Errors.{ok}
use gunnchos_gpu_nr_baseband.Base.Text.{Bytes, find_text, decimal_fuel, decimal, read_digits, stoul}

abbrev pub IsDigit : ℕ → Type 0
IsDigit c = (48 ≤ c) × (c ≤ 57)

decimal_fuel-IsDigit : (f n : ℕ) → All IsDigit (decimal_fuel f n)
decimal_fuel-IsDigit zero n = tt
decimal_fuel-IsDigit (suc f) n = ground (
  arith,
  decimal_fuel-IsDigit f (n / 10),
  All-append IsDigit (decimal_fuel f (n / 10)) ((48 + n % 10) ∷ []),
)

pub decimal-IsDigit : (n : ℕ) → All IsDigit (decimal n)
unfolding decimal
decimal-IsDigit n = decimal_fuel-IsDigit (suc n) n

pub read_digits-append :
    (acc : ℕ) (xs ys : Bytes)
    → All IsDigit xs
    → read_digits acc (xs ++ ys) ≡ read_digits (read_digits acc xs) ys
read_digits-append acc [] ys h = refl
read_digits-append acc (x ∷ xs) ys h =
    ground (arith, read_digits-append (acc * 10 + (x - 48)) xs ys h.1)

read_digits-decimal_fuel : (f n : ℕ) → n < f → read_digits 0 (decimal_fuel f n) ≡ n
read_digits-decimal_fuel zero n h = absurd (omega arith)
read_digits-decimal_fuel (suc f) n h = ground (
  arith,
  read_digits-decimal_fuel f (n / 10),
  decimal_fuel-IsDigit f (n / 10),
  read_digits-append 0 (decimal_fuel f (n / 10)) ((48 + n % 10) ∷ []),
)

pub read_digits-decimal : (n : ℕ) → read_digits 0 (decimal n) ≡ n
unfolding decimal
read_digits-decimal n = read_digits-decimal_fuel (suc n) n (omega arith)

append-cons-ne-nil : (xs : Bytes) (y : ℕ) → xs ++ (y ∷ []) ≢ []
append-cons-ne-nil [] y = λ e. cc
append-cons-ne-nil (x ∷ xs) y = λ e. cc

pub decimal-ne-nil : (n : ℕ) → decimal n ≢ []
unfolding decimal
decimal-ne-nil n = ground (arith, append-cons-ne-nil (decimal_fuel n (n / 10)) (48 + n % 10))

stoul_digits :
    (xs : Bytes)
    → All IsDigit xs
    → xs ≢ []
    → read_digits 0 xs < 2 ^ 64
    → stoul xs ≡ ok (read_digits 0 xs)
unfolding stoul
stoul_digits [] h e b = absurd (e refl)
stoul_digits (x ∷ xs) h e b = ground arith

-- `stoul` reads back what `<<` wrote.
pub stoul-decimal : (n : ℕ) → n < 2 ^ 64 → stoul (decimal n) ≡ ok n
stoul-decimal n h =
    let value = read_digits-decimal n in
    stoul_digits (decimal n) (decimal-IsDigit n) (decimal-ne-nil n) (omega arith) ∙ ap ok value

-- A search for a text that begins with a quote passes over what holds no quote.
pub find_text-plain :
    (k xs ys : Bytes)
    → All (λ c. c ≢ b'"') xs
    → find_text (b'"' ∷ k) (xs ++ ys) ≡ find_text (b'"' ∷ k) ys
find_text-plain k [] ys h = refl
find_text-plain k (x ∷ xs) ys h = ground (arith, find_text-plain k xs ys h.1)

digits_plain : (xs : Bytes) → All IsDigit xs → All (λ c. c ≢ b'"') xs
digits_plain [] h = tt
digits_plain (x ∷ xs) h = (omega arith, digits_plain xs h.1)

pub find_text-decimal :
    (k : Bytes) (n : ℕ) (ys : Bytes)
    → find_text (b'"' ∷ k) (decimal n ++ ys) ≡ find_text (b'"' ∷ k) ys
find_text-decimal k n ys = find_text-plain k (decimal n) ys (digits_plain _ (decimal-IsDigit n))
