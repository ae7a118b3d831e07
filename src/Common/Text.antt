-- ===== src/Common/Text.antt =====
-- Texts as their code points, with the character classes that the source's patterns name.
use Prim.Native.Nat.{ℕ}
use Prim.Native.Char.{code}
use Prim.Native.String.{String}
use mathlib.Core.Bool.{Bool, true, false, ◌&&◌, ◌||◌}
use mathlib.Core.Option.{Option, none, some}
use mathlib.Core.List.{List, [], ◌∷◌, ◌++◌}
use mathlib.Core.Path.{◌≡◌, refl, ap, ◌∙◌}
use Prim.Native.String.{◌++◌ as text_append}
use text.Mathlib.TextEquality.{Char-path}
use text.Mathlib.TextLemmas.{nil-append, cons-append}
use native.Mathlib.Omega.{arith}
use trust_core.Common.Tests.{leb, nat_eq, if◌then◌else◌}
use trust_core.Common.Lists.{all, length}

abbrev pub codes : String → List ℕ
codes (String.◌∷◌ first rest) = code first ∷ codes rest
codes String.[] = []

-- The white space and line ends that `String.prototype.trim` removes.
abbrev pub is_space : ℕ → Bool
is_space c =
    (leb 9 c && leb c 13)
    || nat_eq c 32
    || nat_eq c 0xA0
    || nat_eq c 0x1680
    || (leb 0x2000 c && leb c 0x200A)
    || nat_eq c 0x2028
    || nat_eq c 0x2029
    || nat_eq c 0x202F
    || nat_eq c 0x205F
    || nat_eq c 0x3000
    || nat_eq c 0xFEFF

-- `!value.trim()`: nothing is left of the text once its ends are trimmed.
unfoldable pub is_blank : String → Bool
is_blank s = all is_space (codes s)

-- `!value`: the empty text is the falsy one.
abbrev pub is_empty : String → Bool
is_empty String.[] = true
is_empty (String.◌∷◌ c s) = false

-- [a-f0-9]
unfoldable pub is_hex : ℕ → Bool
is_hex c = (leb b'a' c && leb c b'f') || (leb b'0' c && leb c b'9')

-- /^[a-f0-9]{n}$/
unfoldable pub is_hex_text : ℕ → String → Bool
unfolding is_hex
is_hex_text n s = nat_eq (length (codes s)) n && all is_hex (codes s)

-- What follows a literal at the start of a pattern.
unfoldable pub after_prefix : List ℕ → List ℕ → Option (List ℕ)
after_prefix [] text = some text
after_prefix (p ∷ ps) [] = none
after_prefix (p ∷ ps) (c ∷ text) = if nat_eq c p then after_prefix ps text else none

-- `text.startsWith(part)` and `text.includes(part)`.
unfoldable pub starts_with : List ℕ → List ℕ → Bool
starts_with [] text = true
starts_with (p ∷ ps) [] = false
starts_with (p ∷ ps) (c ∷ text) = nat_eq p c && starts_with ps text

unfoldable pub contains : List ℕ → List ℕ → Bool
unfolding starts_with
contains part [] = starts_with part []
contains part (c ∷ text) = starts_with part (c ∷ text) || contains part text

pub codes-append : (s t : String) → codes (text_append s t) ≡ codes s ++ codes t
codes-append String.[] t = ap codes (nil-append t)
codes-append (String.◌∷◌ c s) t =
    ap codes (cons-append c s t) ∙ ap (λ l. code c ∷ l) (codes-append s t)

pub after_prefix-append : (p t : List ℕ) → after_prefix p (p ++ t) ≡ some t
unfolding after_prefix
after_prefix-append [] t = refl
after_prefix-append (c ∷ p) t = ground (arith, after_prefix-append p t)

-- Texts are equal if their code points are.
pub codes-inj : (s t : String) → codes s ≡ codes t → s ≡ t
codes-inj String.[] String.[] h = refl
codes-inj String.[] (String.◌∷◌ d t) h = cc
codes-inj (String.◌∷◌ c s) String.[] h = cc
codes-inj (String.◌∷◌ c s) (String.◌∷◌ d t) h =
    let same_head : code c ≡ code d = cc in
    let same_tail : codes s ≡ codes t = cc in
    λ i. String.◌∷◌ (Char-path c d same_head i) (codes-inj s t same_tail i)

pub is_hex_text-all : (n : ℕ) (s : String) → is_hex_text n s ≡ true → all is_hex (codes s) ≡ true
unfolding is_hex_text
is_hex_text-all n s h = ground (arith, h)
