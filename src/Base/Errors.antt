-- ===== src/Base/Errors.antt =====
-- `Error` of include/nr_bb/types.hpp: an exception that carries a text, as a value.
use Prim.Native.String.{String}
use mathlib.Core.Path.{◌≡◌, refl}
use mathlib.Core.Bool.{Bool, true, false}

-- The outcome of a call: the exception `Error(text)` or what it returns.
pub data Result {ℓ} (T : Type ℓ) : Type ℓ where
  throw : String → Result T
  ok : T → Result T

-- `require(cond, msg)`
abbrev pub require : Bool → String → Result (Unit {0})
require false text = throw text
require true text = ok tt

infixl 5 ◌>>=◌
-- Nothing runs behind an exception.
abbrev pub ◌>>=◌ {ℓ₁ ℓ₂} : {S : Type ℓ₁} {T : Type ℓ₂} → Result S → (S → Result T) → Result T
throw text >>= next = throw text
ok s >>= next = next s

infixl 5 ◌>>◌
-- A statement and what follows it.
abbrev pub ◌>>◌ {ℓ} : {T : Type ℓ} → Result (Unit {0}) → Result T → Result T
throw text >> next = throw text
ok done >> next = next

-- A sequence returns when its first part does and the rest does with the value of that.
pub >>=-eq-ok {ℓ₁ ℓ₂} :
    {S : Type ℓ₁} {T : Type ℓ₂} (first : Result S) (next : S → Result T) {t : T}
    → (first >>= next) ≡ ok t
    → (s : S) × (first ≡ ok s) × (next s ≡ ok t)
>>=-eq-ok (throw text) next e = cc
>>=-eq-ok (ok s) next e = (s, refl, e)

-- The same of a test before the rest.
pub require-eq-ok {ℓ} :
    {T : Type ℓ} (test : Bool) (text : String) (next : Result T) {t : T}
    → (require test text >> next) ≡ ok t
    → (test ≡ true) × (next ≡ ok t)
require-eq-ok false text next e = cc
require-eq-ok true text next e = (refl, e)

-- The same of any statement before the rest.
pub >>-eq-ok {ℓ} :
    {T : Type ℓ} (first : Result (Unit {0})) (next : Result T) {t : T}
    → (first >> next) ≡ ok t
    → (first ≡ ok tt) × (next ≡ ok t)
>>-eq-ok (throw text) next e = cc
>>-eq-ok (ok done) next e = (refl, e)
