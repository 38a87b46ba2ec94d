-- ===== src/Base/Text.antt =====
-- `std::string` as the list of its bytes, with the standard library's decimal output and `stoul`.
pub mod Decimal
use Prim.Native.Nat.{ℕ, zero, suc, ◌+◌, ◌-◌, ◌*◌, ◌/◌, ◌%◌, ◌^◌}
use Prim.Native.Char.{code}
use Prim.Native.String.{String}
use mathlib.Core.Bool.{Bool, true, false, ◌&&◌, ◌||◌}
use mathlib.Core.Option.{Option, none, some}
use mathlib.Core.List.{List, [], ◌∷◌, ◌++◌}
use gunnchos_gpu_nr_baseband.Base.Tests.{leb, ltb, ◌==◌, if◌then◌else◌}
use gunnchos_gpu_nr_baseband.Base.Errors.{Result, ok, throw}

abbrev pub Bytes : Type 0
Bytes = List ℕ

-- The bytes of an ASCII literal.
abbrev pub codes : String → Bytes
codes String.[] = []
codes (String.◌∷◌ c s) = code c ∷ codes s

abbrev pub is_digit : ℕ → Bool
is_digit c = leb b'0' c && leb c b'9'

-- `isspace` in the "C" locale: the blanks 9 to 13, and the space.
abbrev pub is_space : ℕ → Bool
is_space c = c == 32 || leb 9 c && leb c 13

-- Equality of byte sequences.
abbrev pub bytes_eq : Bytes → Bytes → Bool
bytes_eq [] [] = true
bytes_eq [] (y ∷ ys) = false
bytes_eq (x ∷ xs) [] = false
bytes_eq (x ∷ xs) (y ∷ ys) = x == y && bytes_eq xs ys

abbrev pub is_prefix : Bytes → Bytes → Bool
is_prefix [] ys = true
is_prefix (x ∷ xs) [] = false
is_prefix (x ∷ xs) (y ∷ ys) = x == y && is_prefix xs ys

-- `s.find(k)`: the first match and all that follows it, in place of its position.
abbrev pub find_text : Bytes → Bytes → Option Bytes
find_text k [] = if is_prefix k [] then some [] else none
find_text k (y ∷ ys) = if is_prefix k (y ∷ ys) then some (y ∷ ys) else find_text k ys

-- `s.find(c)`: what stands behind the first `c`.
abbrev pub find_byte : ℕ → Bytes → Option Bytes
find_byte c [] = none
find_byte c (y ∷ ys) = if y == c then some ys else find_byte c ys

-- `out << n`: with more fuel than `n` has digits, the decimal digits of `n`.
abbrev pub decimal_fuel : ℕ → ℕ → Bytes
decimal_fuel zero n = []
decimal_fuel (suc f) n =
    let rest = decimal_fuel f (n / 10) ++ ((b'0' + n % 10) ∷ []) in
    if ltb n 10 then (b'0' + n) ∷ [] else rest

unfoldable pub decimal : ℕ → Bytes
decimal n = decimal_fuel (suc n) n

-- The value of the digits at the front, after those read into `acc`.
abbrev pub read_digits : ℕ → Bytes → ℕ
read_digits acc [] = acc
read_digits acc (c ∷ cs) = if is_digit c then read_digits (acc * 10 + (c - b'0')) cs else acc

abbrev pub skip_spaces : Bytes → Bytes
skip_spaces [] = []
skip_spaces (c ∷ cs) = if is_space c then skip_spaces cs else c ∷ cs

-- `strtoul` on what follows the sign: the digits must begin at once and stay below 2^64.
abbrev pub unsigned_of : Bool → Bytes → Result ℕ
unsigned_of negative [] = throw "stoul: invalid_argument"
unsigned_of negative (c ∷ cs) =
    let n = read_digits 0 (c ∷ cs) in
    if is_digit c
    then if ltb n (2 ^ 64)
      then ok (if negative then (2 ^ 64 - n) % 2 ^ 64 else n)
      else throw "stoul: out_of_range"
    else throw "stoul: invalid_argument"

abbrev pub signed_of : Bytes → Result ℕ
signed_of [] = unsigned_of false []
signed_of (c ∷ cs) =
    if c == b'-'
    then unsigned_of true cs
    else if c == b'+'
    then unsigned_of false cs
    else unsigned_of false (c ∷ cs)

-- `std::stoul(s)`
unfoldable pub stoul : Bytes → Result ℕ
stoul s = signed_of (skip_spaces s)
