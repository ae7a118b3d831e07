-- ===== src/Schema/Doubles.antt =====
-- The whole numbers of JavaScript: what `Number` gives for a text of digits, and what subtraction and
-- comparison tell of two of them. A whole number that needs more than 53 bits is rounded to the
-- nearest double, ties to the even one, and from the end of the range on it is Infinity.

use trust_core.Common.{
  ltb, leb, nat_eq, if◌then◌else◌, ℕ, zero, suc, ◌+◌, ◌*◌, ◌/◌, ◌%◌, ◌^◌, ◌<◌, ◌≡◌, Bool, true,
  false, ◌&&◌, ◌||◌, arith,
}

pub data Double : Type 0 where
  finite : ℕ → Double
  infinity : Double

abbrev pub precision_limit : ℕ
precision_limit = 2 ^ 53

abbrev range_limit : ℕ
range_limit = 2 ^ 1024

-- How often a number is halved before it has 53 bits: 971 times at most below the limit.
abbrev excess_bits : (fuel n : ℕ) → ℕ
excess_bits zero n = 0
excess_bits (suc fuel) n = elim (ltb n precision_limit) [
  | true ↦ 0
  | false ↦ suc (excess_bits fuel (n / 2))
]

abbrev rounds_up : (half mantissa rest : ℕ) → Bool
rounds_up half mantissa rest =
    ltb half (2 * rest) || nat_eq (2 * rest) half && nat_eq (mantissa % 2) 1

-- The nearest multiple of `unit`.
abbrev rounded : (unit n : ℕ) → ℕ
rounded unit n =
    let mantissa = n / unit in
    if rounds_up unit mantissa (n % unit) then (mantissa + 1) * unit else mantissa * unit

abbrev in_range : ℕ → Double
in_range n = if ltb n range_limit then finite n else infinity

-- `Number`, on the value of a text of digits.
unfoldable pub to_double : ℕ → Double
to_double n =
    if ltb n precision_limit
    then finite n
    else if ltb n range_limit
    then in_range (rounded (2 ^ excess_bits 971 n) n)
    else infinity

-- What is seen of a difference: its sign, or that it is NaN.
pub data Difference : Type 0 where
  negative naught positive not_a_number : Difference

-- The difference of two doubles is 0 only where they are equal, and has the sign of the exact one.
abbrev pub minus : Double → Double → Difference
minus (finite a) (finite b) = if ltb a b then negative else if nat_eq a b then naught else positive
minus (finite a) infinity = negative
minus infinity (finite b) = positive
minus infinity infinity = not_a_number

-- `x || y`: 0 and NaN are falsy.
abbrev pub or_next : Difference → Difference → Difference
or_next naught y = y
or_next not_a_number y = y
or_next negative y = negative
or_next positive y = positive

-- `x <= 0`, which is false of NaN.
abbrev pub at_most_zero : Difference → Bool
at_most_zero negative = true
at_most_zero naught = true
at_most_zero positive = false
at_most_zero not_a_number = false

-- `a <= b`.
abbrev pub double_leb : Double → Double → Bool
double_leb (finite a) (finite b) = leb a b
double_leb (finite a) infinity = true
double_leb infinity (finite b) = false
double_leb infinity infinity = true

-- `a === b`.
abbrev pub double_eq : Double → Double → Bool
double_eq (finite a) (finite b) = nat_eq a b
double_eq infinity infinity = true
double_eq (finite a) infinity = false
double_eq infinity (finite b) = false

-- A number of at most 53 bits is kept as it is.
pub to_double_exact : (n : ℕ) → n < 2 ^ 53 → to_double n ≡ finite n
unfolding to_double
to_double_exact n h = ground (arith, h)
