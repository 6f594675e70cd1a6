-- ===== src/Prelude/Result.antt =====
-- A call that returns a value or raises an error.
use mathlib.Core.Path.{◌≡◌, refl}
use mathlib.Core.Logic.{◌⊎◌, inl, inr}

pub data Result {ℓ κ} (Raised : Type ℓ) (Value : Type κ) : Type (ℓ ⊔ κ) where
  err : Raised → Result Raised Value
  ok : Value → Result Raised Value

infixl 5 ◌>>=◌
abbrev pub ◌>>=◌ {ℓ κ μ} :
    {Raised : Type ℓ} {Value : Type κ} {Next : Type μ}
    → Result Raised Value
    → (Value → Result Raised Next)
    → Result Raised Next
err raised >>= next = err raised
ok value >>= next = next value

-- Inversion of a successful chain.
pub >>=-eq-ok {ℓ κ μ} :
    {Raised : Type ℓ} {Value : Type κ} {Next : Type μ} (m : Result Raised Value)
    (next : Value → Result Raised Next) {n : Next}
    → (m >>= next) ≡ ok n
    → (v : Value) × (m ≡ ok v) × (next v ≡ ok n)
>>=-eq-ok (ok v) next h = (v, refl, h)
>>=-eq-ok (err x) next h = cc

pub Result-cases {ℓ κ} :
    {Raised : Type ℓ} {Value : Type κ} (r : Result Raised Value)
    → ((raised : Raised) × (r ≡ err raised)) ⊎ ((value : Value) × (r ≡ ok value))
Result-cases (err raised) = inl (raised, refl)
Result-cases (ok value) = inr (value, refl)
