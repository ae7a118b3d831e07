-- ===== src/Common/Results.antt =====
-- A computation that throws: `ok` with the result, or `err` with what is thrown.
use mathlib.Core.Path.{◌≡◌, refl}
use mathlib.Core.Logic.{◌⊎◌, inl, inr}
use mathlib.Core.Bool.{Bool, true, false}

pub data Result {ℓ κ} (E : Type ℓ) (A : Type κ) : Type (ℓ ⊔ κ) where
  ok : A → Result E A
  err : E → Result E A

-- `if (bad) throw e`.
abbrev pub throw_if {ℓ} : {E : Type ℓ} → Bool → E → Result E (Unit {0})
throw_if true e = err e
throw_if false e = ok tt

infixl 5 ◌>>=◌ ◌>>◌
abbrev pub ◌>>=◌ {ℓ κ ι} :
    {E : Type ℓ} {A : Type κ} {B : Type ι} → Result E A → (A → Result E B) → Result E B
◌>>=◌ (err e) next = err e
◌>>=◌ (ok a) next = next a

abbrev pub ◌>>◌ {ℓ κ} : {E : Type ℓ} {B : Type κ} → Result E (Unit {0}) → Result E B → Result E B
first >> rest = first >>= λ _. rest

pub Result-cases {ℓ κ} :
    {E : Type ℓ} {A : Type κ} (r : Result E A) → ((a : A) × (r ≡ ok a)) ⊎ ((e : E) × (r ≡ err e))
Result-cases (ok a) = inl (a, refl)
Result-cases (err e) = inr (e, refl)

-- A chain that returns has returned at its first step.
pub >>=-eq-ok {ℓ κ ι} :
    {E : Type ℓ} {A : Type κ} {B : Type ι} (first : Result E A) (next : A → Result E B) {b : B}
    → (first >>= next) ≡ ok b
    → (a : A) × (first ≡ ok a) × (next a ≡ ok b)
>>=-eq-ok (err e) next done = cc
>>=-eq-ok (ok a) next done = (a, refl, done)
