-- ===== src/Prelude/Fallible.antt =====
-- Go's `(value, error)` results: an error is its text.
use Prim.Native.String.{String}
use mathlib.Core.Bool.{Bool, true, false}
use mathlib.Core.Path.{◌≡◌, refl}
use mathlib.Core.Logic.{◌⊎◌, inl, inr}

pub data Result {ℓ} (A : Type ℓ) : Type ℓ where
  err : String → Result A
  ok : A → Result A

-- The result goes on to the next step, an error ends the function.
infixl 5 ◌>>=◌
abbrev pub ◌>>=◌ {ℓ κ} :
    {Value : Type ℓ} {Next : Type κ} → Result Value → (Value → Result Next) → Result Next
err text >>= next = err text
ok value >>= next = next value

infixl 5 ◌>>◌
abbrev pub ◌>>◌ {κ} : {Next : Type κ} → Result (Unit {0}) → Result Next → Result Next
err text >> next = err text
ok done >> next = next

-- `if bad { return err }`
abbrev pub reject_if : Bool → String → Result (Unit {0})
reject_if bad text = elim bad [ true ↦ err text | false ↦ ok tt ]

-- A result of two steps has one of the first.
pub >>=-eq-ok {ℓ κ} :
    {A : Type ℓ} {B : Type κ} (r : Result A) (next : A → Result B) {b : B}
    → (r >>= next) ≡ ok b
    → (a : A) × (r ≡ ok a) × (next a ≡ ok b)
>>=-eq-ok (err e) next h = cc
>>=-eq-ok (ok a) next h = (a, refl, h)

pub ok-injective {ℓ} : {A : Type ℓ} {a : A} {b : A} → ok a ≡ ok b → a ≡ b
ok-injective h = cc

-- Two steps without a result that succeed.
pub >>-eq-ok {ℓ} :
    {A : Type ℓ} (r : Result (Unit {0})) (next : Result A) {a : A}
    → (r >> next) ≡ ok a
    → (r ≡ ok tt) × (next ≡ ok a)
>>-eq-ok (err e) next h = cc
>>-eq-ok (ok done) next h = (refl, h)

pub reject_if-eq-ok : (bad : Bool) (text : String) → reject_if bad text ≡ ok tt → bad ≡ false
reject_if-eq-ok true text h = cc
reject_if-eq-ok false text h = refl

pub Result-cases {ℓ} :
    {A : Type ℓ} (r : Result A) → ((e : String) × (r ≡ err e)) ⊎ ((a : A) × (r ≡ ok a))
Result-cases (err e) = inl (e, refl)
Result-cases (ok a) = inr (a, refl)
