-- ===== src/Prelude/Outcome.antt =====
-- What a function that may raise returns.

use mathlib.Core.Path.{◌≡◌, refl}
use mathlib.Core.Logic.{◌⊎◌, inl, inr}

pub data Result {ℓ κ} (Error : Type ℓ) (Value : Type κ) : Type (ℓ ⊔ κ) where
  err : Error → Result Error Value
  ok : Value → Result Error Value

-- The first error ends a chain.
infixl 5 ◌>>=◌
abbrev pub ◌>>=◌ {ℓ κ μ} :
    {Error : Type ℓ} {Value : Type κ} {Next : Type μ}
    → Result Error Value
    → (Value → Result Error Next)
    → Result Error Next
err raised >>= next = err raised
ok value >>= next = next value

-- Inversion of a bind that returned, for proofs where the parts stay shut.
pub >>=-eq-ok {ℓ κ μ} :
    {Error : Type ℓ} {Value : Type κ} {Next : Type μ} (first : Result Error Value)
    (next : Value → Result Error Next) {last : Next}
    → (first >>= next) ≡ ok last
    → (value : Value) × (first ≡ ok value) × (next value ≡ ok last)
>>=-eq-ok (err raised) next h = cc
>>=-eq-ok (ok value) next h = (value, refl, h)

pub ok-injective {ℓ κ} :
    {E : Type ℓ} {A : Type κ} {a b : A} → ◌≡◌ {A = Result E A} (ok a) (ok b) → a ≡ b
ok-injective e = cc

pub Result-cases {ℓ κ} :
    {Error : Type ℓ} {Value : Type κ} (r : Result Error Value)
    → ((e : Error) × (r ≡ err e)) ⊎ ((value : Value) × (r ≡ ok value))
Result-cases (err e) = inl (e, refl)
Result-cases (ok value) = inr (value, refl)
