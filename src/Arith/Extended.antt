-- ===== src/Arith/Extended.antt =====
-- src/arith/extended_number.rs: a `Number` or an infinity, the bounds of intervals. A panic is
-- `none`, of the extended operation or of the `Number` operation that it calls.
use prevail_rust.Base.Tests.{
  ℕ, Option, none, some, Bool, true, false, not, ◌&&◌, if◌then◌else◌, ◌>>=◌,
}
use prevail_rust.Base.Int.{pos, ◌≤ℤ◌, ltb_ℤ, leb_ℤ, eqb_ℤ}
use prevail_rust.Arith.Number
use prevail_rust.Arith.Number.{Number}
pub mod Order
pub mod Sums

pub data ExtendedNumber : Type 0 where
  minus_infinity : ExtendedNumber
  finite : Number → ExtendedNumber
  plus_infinity : ExtendedNumber

-- The derived order: the order of the variants, then that of the numbers.
abbrev pub lt : ExtendedNumber → ExtendedNumber → Bool
lt minus_infinity minus_infinity = false
lt minus_infinity (finite b) = true
lt minus_infinity plus_infinity = true
lt (finite a) minus_infinity = false
lt (finite a) (finite b) = ltb_ℤ a b
lt (finite a) plus_infinity = true
lt plus_infinity b = false

abbrev pub le : ExtendedNumber → ExtendedNumber → Bool
le a b = not (lt b a)

abbrev pub eq : ExtendedNumber → ExtendedNumber → Bool
eq a b = le a b && le b a

-- `std::cmp::min` and `max`.
abbrev pub min : ExtendedNumber → ExtendedNumber → ExtendedNumber
min a b = if lt b a then b else a

abbrev pub max : ExtendedNumber → ExtendedNumber → ExtendedNumber
max a b = if lt b a then a else b

abbrev pub zero_bound : ExtendedNumber
zero_bound = finite (pos 0)

abbrev pub is_infinite : ExtendedNumber → Bool
is_infinite (finite _) = false
is_infinite _ = true

abbrev pub is_finite : ExtendedNumber → Bool
is_finite e = not (is_infinite e)

abbrev pub number : ExtendedNumber → Option Number
number (finite n) = some n
number _ = none

-- `Finite` of a result that may have panicked.
abbrev pub bound : Option Number → Option ExtendedNumber
bound m = m >>= λ n. some (finite n)

unfoldable pub neg : ExtendedNumber → Option ExtendedNumber
neg plus_infinity = some minus_infinity
neg minus_infinity = some plus_infinity
neg (finite n) = bound (Number.checked_neg n)

unfoldable pub abs : ExtendedNumber → Option ExtendedNumber
unfolding neg
abs e = if le zero_bound e then some e else neg e

unfoldable pub sign_extend : ExtendedNumber → ℕ → Option Number
sign_extend (finite n) w = Number.sign_extend n w
sign_extend _ w = none

unfoldable pub zero_extend : ExtendedNumber → ℕ → Option Number
zero_extend (finite n) w = Number.zero_extend n w
zero_extend _ w = none

unfoldable pub narrow_to_i64 : ExtendedNumber → Option Number
narrow_to_i64 (finite n) = Number.narrow_to_i64 n
narrow_to_i64 _ = none

unfoldable pub narrow_to_u64 : ExtendedNumber → Option Number
narrow_to_u64 (finite n) = Number.narrow_to_u64 n
narrow_to_u64 _ = none

unfoldable pub add : ExtendedNumber → ExtendedNumber → Option ExtendedNumber
add (finite a) (finite b) = bound (Number.checked_add a b)
add (finite _) minus_infinity = some minus_infinity
add (finite _) plus_infinity = some plus_infinity
add minus_infinity (finite _) = some minus_infinity
add plus_infinity (finite _) = some plus_infinity
add plus_infinity plus_infinity = some plus_infinity
add minus_infinity minus_infinity = some minus_infinity
add plus_infinity minus_infinity = none
add minus_infinity plus_infinity = none

unfoldable pub sub : ExtendedNumber → ExtendedNumber → Option ExtendedNumber
unfolding add neg
sub a b = neg b >>= λ c. add a c

abbrev pub is_positive : ExtendedNumber → Bool
is_positive e = lt zero_bound e

abbrev same : Bool → Bool → Bool
same true b = b
same false b = not b

-- The product where a factor is infinite and neither is zero.
infinite_product : ExtendedNumber → ExtendedNumber → ExtendedNumber
infinite_product a b =
    if same (is_positive a) (is_positive b) then plus_infinity else minus_infinity

abbrev is_zero_bound : ExtendedNumber → Bool
is_zero_bound (finite n) = eqb_ℤ n (pos 0)
is_zero_bound _ = false

product : ExtendedNumber → ExtendedNumber → Option ExtendedNumber
product (finite a) (finite b) = bound (Number.checked_mul a b)
product minus_infinity b = some (infinite_product minus_infinity b)
product plus_infinity b = some (infinite_product plus_infinity b)
product a b = some (infinite_product a b)

-- Zero absorbs everything, the infinities too.
unfoldable pub mul : ExtendedNumber → ExtendedNumber → Option ExtendedNumber
unfolding product infinite_product
mul a b = if is_zero_bound b then some b else if is_zero_bound a then some a else product a b

-- The shared frame of the divisions: `flip` negates an infinite dividend over a negative divisor.
abs_div :
    ExtendedNumber
    → ExtendedNumber
    → (Number → Number → Option ExtendedNumber)
    → Bool
    → Option ExtendedNumber
unfolding neg
abs_div (finite a) (finite b) f flip = if eqb_ℤ b (pos 0) then none else f a b
abs_div (finite a) minus_infinity f flip = some zero_bound
abs_div (finite a) plus_infinity f flip = some zero_bound
abs_div e (finite b) f flip =
    if eqb_ℤ b (pos 0) then none else if flip && lt (finite b) zero_bound then neg e else some e
abs_div e d f flip = none

unfoldable pub div : ExtendedNumber → ExtendedNumber → Option ExtendedNumber
unfolding abs_div
div a b = abs_div a b (λ n d. bound (Number.checked_div n d)) true

unfoldable pub rem : ExtendedNumber → ExtendedNumber → Option ExtendedNumber
unfolding abs_div
rem a b = abs_div a b (λ n d. bound (Number.checked_rem n d)) false

-- A number as an unsigned 64-bit value.
to_unsigned : Number → Option Number
to_unsigned n = if Number.is_negative n then Number.cast_to_unsigned_width n 64 else some n

unfoldable pub udiv : ExtendedNumber → ExtendedNumber → Option ExtendedNumber
unfolding abs_div to_unsigned
udiv a b =
    abs_div a b (λ n d. bound (do Number.checked_div (← to_unsigned n) (← to_unsigned d))) false

unfoldable pub urem : ExtendedNumber → ExtendedNumber → Option ExtendedNumber
unfolding abs_div to_unsigned
urem a b =
    abs_div a b (λ n d. bound (do Number.checked_rem (← to_unsigned n) (← to_unsigned d))) false
