-- ===== src/Common/Effect.antt =====
-- Stateful code that may throw: what it changed before the throw stays changed.
use mathlib.Core.Path.{◌≡◌, refl}
use mathlib.Core.Logic.{◌⊎◌, inl, inr}
use mathlib.Core.Bool.{Bool, true, false}
use mathlib.Core.Option.{Option, none, some}
use native.Mathlib.Omega.{arith}
use trust_core.Common.Tests.{if◌then◌else◌}
use trust_core.Common.Results.{Result, ok, err}

abbrev pub M : Type 0 → Type 0 → Type 0 → Type 0
M S E A = S → S × Result E A

abbrev pub continue : {S E A B : Type 0} → S × Result E A → (A → M S E B) → S × Result E B
continue (s, ok a) f = f a s
continue (s, err e) f = (s, err e)

infixl 5 ◌>>=◌ ◌>>◌
abbrev pub ◌>>=◌ : {S E A B : Type 0} → M S E A → (A → M S E B) → M S E B
◌>>=◌ m f s = continue (m s) f

abbrev pub ◌>>◌ : {S E B : Type 0} → M S E (Unit {0}) → M S E B → M S E B
◌>>◌ m k = m >>= λ _. k

abbrev pub pure : {S E A : Type 0} → A → M S E A
pure a s = (s, ok a)

abbrev pub throw : {S E A : Type 0} → E → M S E A
throw e s = (s, err e)

-- `if (!test) throw e`.
abbrev pub require : {S E : Type 0} → Bool → E → M S E (Unit {0})
require true e = pure tt
require false e = throw e

-- A value that may be undefined, and what is thrown where it is.
abbrev pub found : {S E A : Type 0} → Option A → E → M S E A
found none e = throw e
found (some a) e = pure a

abbrev pub lift : {S E A : Type 0} → Result E A → M S E A
lift r s = (s, r)

abbrev pub modify : {S E : Type 0} → (S → S) → M S E (Unit {0})
modify f s = (f s, ok tt)

abbrev pub read : {S E A : Type 0} → (S → A) → M S E A
read f s = (s, ok (f s))

-- A run returns or throws.
pub run-cases :
    {S E A : Type 0} (m : M S E A) (s : S)
    → ((s' : S) × (a : A) × (m s ≡ (s', ok a))) ⊎ ((s' : S) × (e : E) × (m s ≡ (s', err e)))
run-cases {S} {E} {A} m s = go (m s) refl
  where
    go :
        (out : S × Result E A)
        → m s ≡ out
        → ((s' : S) × (a : A) × (m s ≡ (s', ok a))) ⊎ ((s' : S) × (e : E) × (m s ≡ (s', err e)))
    go (s', ok a) e = inl (s', a, e)
    go (s', err x) e = inr (s', x, e)

-- A chain that returns has returned at its first step.
pub bind-returned :
    {S E A B : Type 0} (m : M S E A) (f : A → M S E B) (s s' : S) (b : B)
    → (m >>= f) s ≡ (s', ok b)
    → (t : S) × (a : A) × (m s ≡ (t, ok a)) × (f a t ≡ (s', ok b))
bind-returned m f s s' b h = elim (run-cases m s) [
  | inl (t, a, e) ↦ (t, a, e, ground (arith, e, h))
  | inr (t, x, e) ↦ ground (arith, e, h)
]

-- What follows a guard that has passed.
pub require-returned :
    {S E B : Type 0} (test : Bool) (e : E) (n : M S E B) (s s' : S) (b : B)
    → (require test e >> n) s ≡ (s', ok b)
    → n s ≡ (s', ok b)
require-returned true e n s s' b h = h
require-returned false e n s s' b h = cc

-- What holds between the states before and after a run, whether it returns or throws.
module _ {S : Type 0} (R : S → S → Type 0) (stays : (s : S) → R s s)
    (chain : (s t u : S) → R s t → R t u → R s u) where
  pub record Keeps {E A : Type 0} (m : M S E A) : Type 0 where
    pub holds : (s : S) → R s (m s).0

  pub pure-Keeps : {E A : Type 0} (a : A) → Keeps {E = E} (pure a)
  pure-Keeps a = record { holds = stays }

  pub throw-Keeps : {E A : Type 0} (e : E) → Keeps {E = E} {A = A} (throw e)
  throw-Keeps e = record { holds = stays }

  pub read-Keeps : {E A : Type 0} (f : S → A) → Keeps {E = E} (read f)
  read-Keeps f = record { holds = stays }

  pub require-Keeps : {E : Type 0} (test : Bool) (e : E) → Keeps (require test e)
  require-Keeps true e = record { holds = stays }
  require-Keeps false e = record { holds = stays }

  pub found-Keeps : {E A : Type 0} (o : Option A) (e : E) → Keeps (found o e)
  found-Keeps none e = record { holds = stays }
  found-Keeps (some a) e = record { holds = stays }

  pub modify-Keeps : {E : Type 0} (f : S → S) → ((s : S) → R s (f s)) → Keeps {E = E} (modify f)
  modify-Keeps f r = record { holds = r }

  pub branch-Keeps :
      {E A : Type 0} (test : Bool) (m n : M S E A)
      → Keeps m
      → Keeps n
      → Keeps (if test then m else n)
  branch-Keeps true m n first second = first
  branch-Keeps false m n first second = second

  pub bind-Keeps :
      {E A B : Type 0} {m : M S E A} {f : A → M S E B}
      → Keeps m
      → ((a : A) → Keeps (f a))
      → Keeps (m >>= f)
  bind-Keeps {E} {A} {B} {m} {f} first next = record { holds = λ s. go s (m s) (first.holds s) }
    where
      go : (s : S) (out : S × Result E A) → R s out.0 → R s (continue out f).0
      go s (t, ok a) r = chain s t (f a t).0 r ((next a).holds t)
      go s (t, err e) r = r

  -- `m >> n`.
  pub then-Keeps :
      {E B : Type 0} {m : M S E (Unit {0})} {n : M S E B} → Keeps m → Keeps n → Keeps (m >> n)
  then-Keeps first next = bind-Keeps first (λ _. next)
