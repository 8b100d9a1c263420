-- ===== src/Crab/Tests.antt =====
-- The laws of src/crab/interval.rs at concrete intervals.
use prevail_rust.Base.Tests.{◌≡◌, ◌<◌, ◌⊎◌, refl, true, some, arith}
use prevail_rust.Base.Int.{ℤ, pos, negsuc, tdiv_ℤ, ◌*ℤ◌, ◌+ℤ◌, ◌-ℤ◌, neg_ℤ, trem_ℤ}
use prevail_rust.Arith.Number
use prevail_rust.Arith.Number.{checked_mul}
use prevail_rust.Arith.Extended
use prevail_rust.Arith.Extended.{finite, plus_infinity}
use prevail_rust.Crab.Interval.{
  contains, pair_number, sub, Interval, singleton, new, is_included_in, join, widen, add,
}
use prevail_rust.Crab.Interval.Member.{Contains}
use prevail_rust.Crab.Interval.Widen.{height, widen-height}
use prevail_rust.Crab.Interval.Sums.{HasSmallBounds, Holds, add-Contains}
use prevail_rust.Crab.Interval.Bitwise.{ashr, shift_to_power_of_two, power}
use prevail_rust.Crab.Interval.Divide
use prevail_rust.Crab.Interval.Divide.{div, sdiv, udiv, div_step, sdiv_step, udiv_step, unreached}
use prevail_rust.Crab.Interval.Divide.Remainder.{srem, urem, srem_step, urem_step}
use prevail_rust.Crab.Interval.Divide.Depth.{division_depth}
use prevail_rust.Crab.Interval.Extend.{sign_extend}
use prevail_rust.Crab.Interval.Extend.Sound.{sign_extend-Contains}

abbrev near_zero : Interval
near_zero = record { lb = finite (negsuc 2); ub = finite (pos 5) }

abbrev positive : Interval
positive = record { lb = finite (pos 2); ub = finite (pos 10) }

abbrev wide : Interval
wide = record { lb = finite (negsuc 9); ub = finite (pos 300) }

near_zero-HasSmallBounds : HasSmallBounds near_zero
near_zero-HasSmallBounds = record {
  lb_small = (omega arith, omega arith);
  ub_small = (omega arith, omega arith);
}

positive-HasSmallBounds : HasSmallBounds positive
positive-HasSmallBounds = record {
  lb_small = (omega arith, omega arith);
  ub_small = (omega arith, omega arith);
}

wide-HasSmallBounds : HasSmallBounds wide
wide-HasSmallBounds = record {
  lb_small = (omega arith, omega arith);
  ub_small = (omega arith, omega arith);
}

near_zero-Contains : Contains near_zero (negsuc 0)
near_zero-Contains = record { above = omega arith; below = omega arith }

both-Contain : Contains near_zero (pos 4) × Contains positive (pos 4)
both-Contain = (
  record { above = omega arith; below = omega arith },
  record { above = omega arith; below = omega arith },
)

widen-height_example :
    (is_included_in positive near_zero ≡ true)
    ⊎ (height (widen near_zero positive) < height near_zero)
widen-height_example = widen-height near_zero positive

add-Contains_example : Holds (add near_zero positive) (negsuc 0 +ℤ pos 4)
add-Contains_example =
    add-Contains near_zero positive (negsuc 0) (pos 4) near_zero-HasSmallBounds near_zero-Contains
      positive-HasSmallBounds (both-Contain.1)

division_depth_example :
    (div_step (div_step (div_step unreached)) near_zero near_zero ≡ div near_zero near_zero)
    × (sdiv_step (sdiv_step (sdiv_step unreached)) near_zero near_zero ≡ sdiv near_zero near_zero)
    × (udiv_step (udiv_step (udiv_step unreached)) near_zero near_zero ≡ udiv near_zero near_zero)
    × (srem_step (srem_step unreached) near_zero near_zero ≡ srem near_zero near_zero)
    × (urem_step (urem_step (urem_step unreached)) near_zero near_zero ≡ urem near_zero near_zero)
division_depth_example = division_depth unreached near_zero near_zero

sign_extend-Contains_example :
    (r : ℤ) × (Number.sign_extend (pos 200) 8 ≡ some r) × Holds (sign_extend wide 8) r
sign_extend-Contains_example =
    sign_extend-Contains 8 wide (pos 200) (omega arith) (omega arith) wide-HasSmallBounds
      (omega arith, omega arith) inside
  where
    inside : Contains wide (pos 200)
    inside = record { above = omega arith; below = omega arith }

abbrev shift_by_three : Interval
shift_by_three = record { lb = finite (pos 3); ub = finite (pos 3) }

-- The arithmetic shift of -1 by one place is the quotient 0.
ashr_minus_one :
    ashr
      (record { lb = finite (negsuc 0); ub = finite (negsuc 0) })
      (record { lb = finite (pos 1); ub = finite (pos 1) })
    ≡ some (record { lb = finite (pos 0); ub = finite (pos 0) })
unfolding ashr shift_to_power_of_two power singleton checked_mul ◌*ℤ◌ Divide.div
    Divide.divide_by_constant Extended.div Number.checked_div tdiv_ℤ new
ashr_minus_one = refl

abbrev span : ℤ → ℤ → Interval
span a b = record { lb = finite a; ub = finite b }

-- A dividend on both sides of zero has remainders on both sides.
srem_both_signs :
    srem (span (negsuc 99) (pos 100)) (span (pos 3) (pos 7)) ≡ some (span (negsuc 5) (pos 6))
unfolding srem singleton Divide.try_split_divisor_at_zero contains pair_number Number.abs
    Number.checked_sub ◌-ℤ◌ Number.checked_neg neg_ℤ new
srem_both_signs = refl

-- A dividend that is smaller than the divisor in absolute value is its own remainder.
srem_small_dividend :
    srem (span (negsuc 1) (pos 2)) (span (negsuc 6) (negsuc 4)) ≡ some (span (negsuc 1) (pos 2))
unfolding srem singleton Divide.try_split_divisor_at_zero contains pair_number Number.abs
    Extended.neg Number.checked_neg neg_ℤ
srem_small_dividend = refl

-- Unsigned, -1 is 2^64 - 1, and its remainder by ten is five.
urem_minus_one :
    urem (span (negsuc 0) (negsuc 0)) (span (pos 10) (pos 10)) ≡ some (span (pos 5) (pos 5))
unfolding urem singleton Number.fits_cast_to Number.fits_signed neg_ℤ ◌-ℤ◌ Number.is_zero
    Number.cast_to_unsigned_width ◌+ℤ◌ Number.narrow_to_u64 Number.to_u64 Number.checked_rem tdiv_ℤ
    trem_ℤ
urem_minus_one = refl

-- The remainder of five by a divisor that is at least ten is five, and the interval omits it.
urem_omits_the_dividend :
    urem (span (pos 5) (pos 5)) (record { lb = finite (pos 10); ub = plus_infinity })
    ≡ some (span (pos 0) (pos 4))
unfolding urem singleton Divide.try_split_divisor_at_zero contains Divide.try_split_dividend_at_zero
    sub Extended.sub Number.checked_neg neg_ℤ Number.checked_add ◌+ℤ◌ join new
urem_omits_the_dividend = refl
