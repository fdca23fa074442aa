-- ===== src/Prelude/Results.antt =====
-- What a throwing function returns: a value, or the error that it throws.
use mathlib.Core.Path.{◌≡◌, refl}
use mathlib.Core.Bool.{Bool, true, false}
use mathlib.Core.Logic.{◌⊎◌, inl, inr}
use achichiz_back_end.Prelude.Tests.{if◌then◌else◌}

pub data Result {ℓ κ} (E : Type ℓ) (A : Type κ) : Type (ℓ ⊔ κ) where
  ok : A → Result E A
  err : E → Result E A

module _ {ℓ κ} {E : Type ℓ} {A : Type κ} where
  infixl 5 ◌>>=◌
  abbrev pub ◌>>=◌ {ι} : {B : Type ι} → Result E A → (A → Result E B) → Result E B
  ok a >>= f = f a
  err e >>= f = err e

  pub Result-cases : (r : Result E A) → ((a : A) × (r ≡ ok a)) ⊎ ((e : E) × (r ≡ err e))
  Result-cases (ok a) = inl (a, refl)
  Result-cases (err e) = inr (e, refl)

infixl 5 ◌>>◌
abbrev pub ◌>>◌ {ℓ κ} : {E : Type ℓ} {B : Type κ} → Result E (Unit {0}) → Result E B → Result E B
m >> k = m >>= λ _. k

-- `if (!test) throw e`.
abbrev pub require {ℓ} : {E : Type ℓ} → Bool → E → Result E (Unit {0})
require true e = ok tt
require false e = err e

-- The value of a chain whose first step only checks.
pub then_ok {ℓ κ ι} :
    {E : Type ℓ} {A : Type κ} {B : Type ι} (m : Result E A) {x t : B}
    → (m >>= λ _. ok x) ≡ ok t
    → t ≡ x
then_ok (ok a) e = cc
then_ok (err _) e = cc

pub ok-injective {ℓ κ} :
    {E : Type ℓ} {A : Type κ} {x y : A} → ◌≡◌ {A = Result E A} (ok x) (ok y) → x ≡ y
ok-injective e = cc

-- Inversion of a successful bind, and of a check that passed.
pub >>=-eq-ok {ℓ κ ι} :
    {E : Type ℓ} {A : Type κ} {B : Type ι} (first : Result E A) (rest : A → Result E B) {out : B}
    → (first >>= rest) ≡ ok out
    → (x : A) × (first ≡ ok x) × (rest x ≡ ok out)
>>=-eq-ok (err _) rest e = cc
>>=-eq-ok (ok x) rest e = (x, refl, e)

pub require-eq-ok {ℓ κ} :
    {E : Type ℓ} {B : Type κ} (test : Bool) (e : E) (rest : Result E B) {b : B}
    → (require test e >> rest) ≡ ok b
    → (test ≡ true) × (rest ≡ ok b)
require-eq-ok true e rest h = (refl, h)
require-eq-ok false e rest h = cc

pub require-true {ℓ κ} :
    {E : Type ℓ} {B : Type κ} (test : Bool) (e : E) (rest : Result E B) {b : B}
    → test ≡ true
    → rest ≡ ok b
    → (require test e >> rest) ≡ ok b
require-true true e rest h k = k
require-true false e rest h k = cc

-- A check written with if-then-else.
pub check_passed {ℓ} :
    {E : Type ℓ} (test : Bool) (e : E) → (if test then ok tt else err e) ≡ ok (tt {0}) → test ≡ true
check_passed true e h = refl
check_passed false e h = cc
