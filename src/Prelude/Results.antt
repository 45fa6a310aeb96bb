-- ===== src/Prelude/Results.antt =====
-- Code that may throw: a value, or the error that is thrown.
use mathlib.Core.Path.{◌≡◌, refl}
use mathlib.Core.Logic.{◌⊎◌, inl, inr}
use mathlib.Core.Bool.{Bool, true, false}

pub data Result {ℓ} (E : Type 0) (A : Type ℓ) : Type ℓ where
  ok : A → Result E A
  throw : E → Result E A

-- What comes after a throw is not run.
abbrev pub ◌>>=◌ {κ ℓ} :
    {X : Type κ} {Y : Type ℓ} {E : Type 0} → Result E X → (X → Result E Y) → Result E Y
throw thrown >>= next = throw thrown
ok value >>= next = next value

abbrev pub ◌>>◌ {ℓ} : {Y : Type ℓ} {E : Type 0} → Result E (Unit {0}) → Result E Y → Result E Y
throw thrown >> next = throw thrown
ok _ >> next = next

infixl 5 ◌>>=◌ ◌>>◌
-- `if (!test) throw e`
abbrev pub require : {E : Type 0} → Bool → E → Result E (Unit {0})
require false thrown = throw thrown
require true thrown = ok tt

pub Result-cases {ℓ} :
    {E : Type 0} {A : Type ℓ} (r : Result E A) → ((a : A) × (r ≡ ok a)) ⊎ ((e : E) × (r ≡ throw e))
Result-cases (ok a) = inl (a, refl)
Result-cases (throw e) = inr (e, refl)

-- A chain that returns has returned at each of its links.
pub >>=-eq-ok {κ ℓ} :
    {X : Type κ} {Y : Type ℓ} {E : Type 0} (r : Result E X) (next : X → Result E Y) {result : Y}
    → (r >>= next) ≡ ok result
    → (x : X) × (r ≡ ok x) × (next x ≡ ok result)
>>=-eq-ok (throw thrown) next returned = cc
>>=-eq-ok (ok x) next returned = (x, refl, returned)

pub >>-eq-ok {ℓ} :
    {Y : Type ℓ} {E : Type 0} (m : Result E (Unit {0})) (next : Result E Y) {result : Y}
    → (m >> next) ≡ ok result
    → (m ≡ ok tt) × (next ≡ ok result)
>>-eq-ok (throw thrown) next returned = cc
>>-eq-ok (ok x) next returned = (refl, returned)
