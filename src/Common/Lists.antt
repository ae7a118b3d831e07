-- ===== src/Common/Lists.antt =====
-- Lists measured by native numbers, and Boolean and propositional quantifiers over them.
use Prim.Native.Nat.{ℕ, suc, ◌+◌}
use mathlib.Core.Path.{◌≡◌, refl}
use mathlib.Core.Logic.{◌⊎◌, inl, inr}
use mathlib.Core.Bool.{Bool, true, false, ◌&&◌, ◌||◌}
use mathlib.Core.Option.{Option, none, some}
use mathlib.Core.List.{List, [], ◌∷◌, ◌++◌, Memᴰ}
use native.Mathlib.Omega.{arith}
use trust_core.Common.Tests.{Eq, Bool-cases, if◌then◌else◌}

module _ {ℓ} {A : Type ℓ} where
  abbrev pub length : List A → ℕ
  length [] = 0
  length (x ∷ xs) = suc (length xs)

  pub length-append : (xs ys : List A) → length (xs ++ ys) ≡ length xs + length ys
  length-append [] ys = omega arith
  length-append (x ∷ xs) ys = omega (arith, length-append xs ys)

  -- `Array.prototype.some`, `every` and `find`.
  abbrev pub any : (A → Bool) → List A → Bool
  any p [] = false
  any p (x ∷ xs) = p x || any p xs

  abbrev pub all : (A → Bool) → List A → Bool
  all p [] = true
  all p (x ∷ xs) = p x && all p xs

  abbrev pub find : (A → Bool) → List A → Option A
  find p [] = none
  find p (x ∷ xs) = if p x then some x else find p xs

module _ {ℓ} {A : Type ℓ} where
  abbrev pub All : (A → Type 0) → List A → Type 0
  All P [] = Unit
  All P (x ∷ xs) = P x × All P xs

  abbrev pub Any : (A → Type 0) → List A → Type 0
  Any P [] = ⊥
  Any P (x ∷ xs) = P x ⊎ Any P xs

module _ {ℓ} {A : Type ℓ} ⦃e : Eq A⦄ where
  -- `Array.prototype.includes`, `Set.prototype.has`.
  abbrev pub includes : List A → A → Bool
  includes [] a = false
  includes (x ∷ xs) a = e.is_same x a || includes xs a

module _ {ℓ} {A : Type ℓ} (p : A → Bool) where
  pub find-Any : (xs : List A) (x : A) → find p xs ≡ some x → Any (λ y. p y ≡ true) xs
  find-Any [] x h = cc
  find-Any (y ∷ xs) x h = ground (arith, find-Any xs x)

  pub Any-find : (xs : List A) → find p xs ≡ none → ¬ Any (λ y. p y ≡ true) xs
  Any-find [] h a = a
  Any-find (y ∷ xs) h (inl here) = ground (arith, here, h)
  Any-find (y ∷ xs) h (inr later) = Any-find xs (ground arith) later

  -- What `find` returns passes the test and stands in the list.
  pub find-Mem : (xs : List A) (x : A) → find p xs ≡ some x → (p x ≡ true) × Memᴰ x xs
  find-Mem [] x h = cc
  find-Mem (y ∷ xs) x h = elim (Bool-cases (p y)) [
    | inl hit ↦ let same : x ≡ y = ground (arith, hit) in (rw same hit, Memᴰ.head same)
    | inr miss ↦
        let (passed, listed) = find-Mem xs x (ground (arith, miss)) in (passed, Memᴰ.tail listed)
  ]

module _ {ℓ} {A : Type ℓ} {P Q : A → Type 0} (f : (x : A) → P x → Q x) where
  pub Any-map : (xs : List A) → Any P xs → Any Q xs
  Any-map (x ∷ xs) (inl here) = inl (f x here)
  Any-map (x ∷ xs) (inr later) = inr (Any-map xs later)
  Any-map [] a = absurd a

-- `Array.prototype.filter`.
module _ {ℓ} {A : Type ℓ} where
  abbrev pub keep : (A → Bool) → List A → List A
  keep q [] = []
  keep q (x ∷ xs) = if q x then x ∷ keep q xs else keep q xs

  -- A search passes over what is filtered out, if its test implies the filter's.
  pub find-keep :
      (p q : A → Bool)
      → ((x : A) → p x ≡ true → q x ≡ true)
      → (xs : List A) → find p (keep q xs) ≡ find p xs
  find-keep p q imp [] = refl
  find-keep p q imp (x ∷ xs) = ground (arith, imp x, find-keep p q imp xs)

  pub find-append :
      (p : A → Bool) (xs ys : List A)
      → find p (xs ++ ys) ≡ (elim (find p xs) [ none ↦ find p ys | some x ↦ some x ])
  find-append p [] ys = refl
  find-append p (x ∷ xs) ys = ground (arith, find-append p xs ys)
