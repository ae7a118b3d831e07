-- ===== src/Common/Time.antt =====
-- Instants as `Date.parse` and `Date.now` give them: whole milliseconds, before or after 1970.
use Prim.Native.Nat.{ℕ, suc, ◌+◌}
use mathlib.Core.Bool.{Bool, false}
use mathlib.Core.Option.{Option, none, some}
use trust_core.Common.Tests.{ltb, leb}

-- `negsuc n` is -(n + 1).
pub data ℤ : Type 0 where
  pos : ℕ → ℤ
  negsuc : ℕ → ℤ

abbrev pub pos_part : ℤ → ℕ
pos_part (pos n) = n
pos_part (negsuc n) = 0

abbrev pub neg_part : ℤ → ℕ
neg_part (pos n) = 0
neg_part (negsuc n) = suc n

-- `a < b` and `a <= b` on what `Date.parse` returns, where `none` is NaN: no test holds of it.
abbrev pub is_before : Option ℤ → Option ℤ → Bool
is_before (some a) (some b) = ltb (pos_part a + neg_part b) (pos_part b + neg_part a)
is_before none b = false
is_before (some a) none = false

abbrev pub is_at_most : Option ℤ → Option ℤ → Bool
is_at_most (some a) (some b) = leb (pos_part a + neg_part b) (pos_part b + neg_part a)
is_at_most none b = false
is_at_most (some a) none = false
