-- ===== src/Common/Tests.antt =====
-- Boolean tests, the conditional, and the cases of a computed value.
use Prim.Native.Nat.{ℕ, compare, Ordering}
use Prim.Native.String.{String}
use mathlib.Core.Path.{◌≡◌, refl}
use mathlib.Core.Logic.{◌↔◌, ◌⊎◌, inl, inr}
use mathlib.Core.Bool.{Bool, true, false}
use mathlib.Core.Option.{Option, none, some}
use native.Mathlib.Omega.{arith}
use text.Mathlib.Text.{◌==◌ as text_eq}
use text.Mathlib.TextEquality.{eq_iff as text_eq_iff}

abbrev pub ltb : ℕ → ℕ → Bool
ltb a b = elim (compare a b) [ Ordering.lt ↦ true | _ ↦ false ]

abbrev pub leb : ℕ → ℕ → Bool
leb a b = elim (compare a b) [ Ordering.gt ↦ false | _ ↦ true ]

abbrev pub nat_eq : ℕ → ℕ → Bool
nat_eq a b = elim (compare a b) [ Ordering.eq ↦ true | _ ↦ false ]

infix 1 if◌then◌else◌
abbrev pub if◌then◌else◌ {ℓ} : {A : Type ℓ} → Bool → A → A → A
if true then x else y = x
if false then x else y = y

pub nat_eq_iff : (a b : ℕ) → (nat_eq a b ≡ true) ↔ (a ≡ b)
nat_eq_iff a b = ground arith

pub Bool-cases : (b : Bool) → (b ≡ true) ⊎ (b ≡ false)
Bool-cases true = inl refl
Bool-cases false = inr refl

pub Option-cases {ℓ} : {A : Type ℓ} (o : Option A) → (o ≡ none) ⊎ ((a : A) × (o ≡ some a))
Option-cases none = inl refl
Option-cases (some a) = inr (a, refl)

-- `===` on a type of values.
pub record Eq {ℓ} (A : Type ℓ) : Type ℓ where
  pub is_same : A → A → Bool
  pub is_same_iff : (a b : A) → (is_same a b ≡ true) ↔ (a ≡ b)

infix 50 ◌==◌
abbrev pub ◌==◌ {ℓ} : {A : Type ℓ} ⦃e : Eq A⦄ → A → A → Bool
◌==◌ ⦃e⦄ = e.is_same

pub eq_iff {ℓ} : {A : Type ℓ} ⦃e : Eq A⦄ (a b : A) → ((a == b) ≡ true) ↔ (a ≡ b)
eq_iff ⦃e⦄ a b = e.is_same_iff a b

instance abbrev pub string_eq : Eq String
string_eq = record { is_same_iff = text_eq_iff; is_same = text_eq }

instance abbrev pub number_eq : Eq ℕ
number_eq = record { is_same_iff = nat_eq_iff; is_same = nat_eq }

-- `===` where one side may be `undefined` or `null`.
module _ {ℓ} {A : Type ℓ} ⦃e : Eq A⦄ where
  abbrev pub option_beq : Option A → Option A → Bool
  option_beq none none = true
  option_beq none (some b) = false
  option_beq (some a) none = false
  option_beq (some a) (some b) = e.is_same a b

  pub option_beq_iff : (a b : Option A) → (option_beq a b ≡ true) ↔ (a ≡ b)
  option_beq_iff none none = ground arith
  option_beq_iff none (some b) = ground arith
  option_beq_iff (some a) none = ground arith
  option_beq_iff (some a) (some b) = ground (arith, e.is_same_iff a b)

  instance abbrev pub option_eq : Eq (Option A)
  option_eq = record { is_same_iff = option_beq_iff; is_same = option_beq }

-- `===` on an enumeration.
abbrev pub discrete_beq {ℓ} : {A : Type ℓ} → Discrete A → A → A → Bool
discrete_beq d a b = elim (d a b) [ yes _ ↦ true | no _ ↦ false ]

pub discrete_beq_iff {ℓ} :
    {A : Type ℓ} (d : Discrete A) (a b : A) → (discrete_beq d a b ≡ true) ↔ (a ≡ b)
discrete_beq_iff d a b =
    elim (d a b) as (λ r. (elim r [ yes _ ↦ true | no _ ↦ false ] ≡ true) ↔ (a ≡ b)) [
      | yes p ↦ (λ _. p, λ _. refl)
      | no p ↦ (λ h. cc, λ h. absurd (p h))
    ]

abbrev pub discrete_eq {ℓ} : {A : Type ℓ} → Discrete A → Eq A
discrete_eq d = record { is_same_iff = discrete_beq_iff d; is_same = discrete_beq d }

-- `Boolean(value)` of a text that may be undefined or null.
abbrev pub is_truthy : Option String → Bool
is_truthy none = false
is_truthy (some String.[]) = false
is_truthy (some (String.◌∷◌ c s)) = true

-- `value ?? other`.
abbrev pub or_default {ℓ} : {A : Type ℓ} → A → Option A → A
or_default other none = other
or_default other (some a) = a
