-- ===== src/Prelude/Errors.antt =====
-- Code that may raise: the error, or the value.
use mathlib.Core.Path.{◌≡◌, refl}
use mathlib.Core.Bool.{Bool, true, false}
use mathlib.Core.Logic.{◌⊎◌, inl, inr}
use mathlib.Core.Option.{Option, none, some}

pub data Result {ℓ} (E A : Type ℓ) : Type ℓ where
  err : E → Result E A
  ok : A → Result E A

-- Code that goes on with a value that may be missing.
abbrev pub given {ℓ κ} : {A : Type ℓ} {B : Type κ} → Option A → B → (A → B) → B
given (some a) missing f = f a
given none missing f = missing

-- A statement after another: what was raised goes on up.
infixl 5 ◌>>=◌
abbrev pub ◌>>=◌ {ℓ} : {E A B : Type ℓ} → Result E A → (A → Result E B) → Result E B
err raised >>= next = err raised
ok value >>= next = next value

-- `if test: raise e`
abbrev pub raise_if {ℓ} : {E : Type ℓ} → Bool → E → Result E Unit
raise_if false e = ok tt
raise_if true e = err e

infixl 5 ◌>>◌
abbrev pub ◌>>◌ {ℓ} : {E A B : Type ℓ} → Result E A → Result E B → Result E B
first >> second = first >>= λ _. second

-- Inversion of a successful bind.
pub >>=-eq-ok {ℓ} :
    {E A B : Type ℓ} (m : Result E A) (next : A → Result E B) {b : B}
    → (m >>= next) ≡ ok b
    → (a : A) × (m ≡ ok a) × (next a ≡ ok b)
>>=-eq-ok (err raised) next h = cc
>>=-eq-ok (ok value) next h = (value, refl, h)

-- A sequence that goes through: no test raised, and each part goes through.
pub raise_if-then {ℓ} :
    {E B : Type ℓ} (test : Bool) (e : E) (rest : Result E B) {b : B}
    → (raise_if test e >> rest) ≡ ok b
    → (test ≡ false) × (rest ≡ ok b)
raise_if-then false e rest h = (refl, h)
raise_if-then true e rest h = cc

pub >>-eq-ok {ℓ} :
    {E A B : Type ℓ} (m : Result E A) (rest : Result E B) {b : B}
    → (m >> rest) ≡ ok b
    → (a : A) × (m ≡ ok a) × (rest ≡ ok b)
>>-eq-ok m rest h = >>=-eq-ok m (λ _. rest) h

pub Result-cases {ℓ} :
    {E A : Type ℓ} (m : Result E A) → ((e : E) × (m ≡ err e)) ⊎ ((a : A) × (m ≡ ok a))
Result-cases (err e) = inl (e, refl)
Result-cases (ok a) = inr (a, refl)
