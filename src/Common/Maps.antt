-- ===== src/Common/Maps.antt =====
-- `Map<string, V>`: pairs in the order of first insertion, in which a later write keeps the place.
use Prim.Native.String.{String}
use mathlib.Core.Path.{◌≡◌, refl}
use mathlib.Core.Option.{Option, none, some}
use mathlib.Core.List.{List, [], ◌∷◌}
use native.Mathlib.Omega.{arith}
use trust_core.Common.Tests.{◌==◌, eq_iff, string_eq, if◌then◌else◌}

abbrev pub Dict {ℓ} : Type ℓ → Type ℓ
Dict V = List (String × V)

module _ {ℓ} {V : Type ℓ} where
  unfoldable pub insert : String → V → Dict V → Dict V
  insert key value ((at, old) ∷ rest) =
      if at == key then (at, value) ∷ rest else (at, old) ∷ insert key value rest
  insert key value [] = (key, value) ∷ []

  unfoldable pub delete : String → Dict V → Dict V
  delete key ((at, old) ∷ rest) = if at == key then delete key rest else (at, old) ∷ delete key rest
  delete key [] = []

  unfoldable pub lookup : String → Dict V → Option V
  lookup key ((at, value) ∷ rest) = if at == key then some value else lookup key rest
  lookup key [] = none

  abbrev pub values : Dict V → List V
  values [] = []
  values ((at, value) ∷ rest) = value ∷ values rest

  pub lookup-delete :
      (gone key : String) (m : Dict V)
      → lookup key (delete gone m) ≡ (if gone == key then none else lookup key m)
  unfolding lookup delete
  lookup-delete gone key [] = ground arith
  lookup-delete gone key ((at, value) ∷ rest) =
      ground (arith, eq_iff gone key, eq_iff at gone, eq_iff at key, lookup-delete gone key rest)

  pub lookup-insert :
      (new key : String) (value : V) (m : Dict V)
      → lookup key (insert new value m) ≡ (if new == key then some value else lookup key m)
  unfolding lookup insert
  lookup-insert new key value ((at, old) ∷ rest) =
      ground (arith, eq_iff new key, eq_iff at new, eq_iff at key, lookup-insert new key value rest)
  lookup-insert new key value [] = refl

  pub lookup-insert_self :
      (key : String) (value : V) (m : Dict V) → lookup key (insert key value m) ≡ some value
  lookup-insert_self key value m = ground (arith, lookup-insert key key value m, eq_iff key key)
