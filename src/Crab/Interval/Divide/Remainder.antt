-- ===== src/Crab/Interval/Divide/Remainder.antt =====
-- The remainders of src/crab/interval.rs, `srem` and `urem`, as steps over the function that
-- they call on the halves of an operand that holds zero.
use prevail_rust.Base.Tests.{
  Option, none, some, Bool, true, false, ◌&&◌, ◌||◌, if◌then◌else◌, ◌>>=◌,
}
use prevail_rust.Base.Int.{pos, ltb_ℤ, leb_ℤ}
use prevail_rust.Arith.Number
use prevail_rust.Arith.Number.{Number}
use prevail_rust.Arith.Extended
use prevail_rust.Arith.Extended.{finite, zero_bound, lt, is_infinite, is_finite, number}
use prevail_rust.Crab.Interval.{
  Interval, new, bottom, top, from_number, singleton, join, sub, pair_number,
}
use prevail_rust.Crab.Interval.Divide.{
  Op, unreached, or_else, either_bottom, try_split_divisor_at_zero, split_step,
}

-- The remainder of two constants; by zero it is the dividend.
srem_constants : Number → Number → Option Interval
srem_constants dividend divisor =
    if Number.is_zero divisor
    then some (from_number dividend)
    else do r ← Number.checked_rem dividend divisor; some (from_number r)

pub srem_early : Interval → Interval → Option (Option Interval)
srem_early x y =
    if either_bottom x y
    then some (some bottom)
    else (do dividend ← singleton x; divisor ← singleton y; some (srem_constants dividend divisor))

-- The absolute values of a divisor's endpoints, the smaller first.
ordered_abs : Number × Number → Option (Number × Number)
ordered_abs (xlb, xub) = do
  xlb_abs ← Number.abs xlb
  xub_abs ← Number.abs xub
  some (if leb_ℤ xlb_abs xub_abs then (xlb_abs, xub_abs) else (xub_abs, xlb_abs))

-- `self.ub < m && -&self.lb < m`.
is_below_divisor : Interval → Number → Option Bool
is_below_divisor x m =
    if lt x.ub (finite m) then (do l ← Extended.neg x.lb; some (lt l (finite m))) else some false

-- The largest remainder on the sides of zero where the dividend lies.
srem_range : Interval → Number → Option Interval
srem_range x largest =
    if lt x.lb zero_bound
    then (do
      smallest ← Number.checked_neg largest
      some (
          if lt zero_bound x.ub
          then new (finite smallest) (finite largest)
          else new (finite smallest) zero_bound))
    else some (new zero_bound (finite largest))

srem_finite : Interval → Number × Number → Option Interval
srem_finite x (min_divisor, max_divisor) = do
  below ← is_below_divisor x min_divisor
  if below
      then some x
      else (do largest ← Number.checked_sub max_divisor (pos 1); srem_range x largest)

pub srem_base : Op
srem_base x y =
    if is_finite y.ub && is_finite y.lb
    then (do b ← pair_number y; ordered ← ordered_abs b; srem_finite x ordered)
    else some (join x (from_number (pos 0)))

-- The signed remainder splits the divisor only.
unfoldable pub srem_step : Op → Op
unfolding srem_constants srem_early ordered_abs is_below_divisor srem_range srem_finite srem_base
srem_step op x y =
    or_else (srem_early x y) (or_else (try_split_divisor_at_zero x y op x) (srem_base x y))

unfoldable pub srem : Op
unfolding srem_step
srem = srem_step (srem_step unreached)

-- The remainder of two constants as 64-bit unsigned integers; by zero it is the dividend.
urem_constants : Number → Number → Option Interval
urem_constants dividend divisor = if Number.is_zero divisor then some (from_number dividend) else do
  a ← Number.cast_to_unsigned_width dividend 64
  dv ← Number.narrow_to_u64 a
  b ← Number.cast_to_unsigned_width divisor 64
  ds ← Number.narrow_to_u64 b
  r ← Number.checked_rem dv ds
  some (from_number r)

-- `dividend.fits_cast_to(64) && divisor.fits_cast_to(64)`.
both_fit : Number → Number → Option Bool
both_fit dividend divisor = do
  a ← Number.fits_cast_to dividend 64
  if a then Number.fits_cast_to divisor 64 else some false

urem_when : Option Bool → Option Interval → Option (Option Interval)
urem_when none r = some none
urem_when (some false) r = none
urem_when (some true) r = some r

pub urem_early : Interval → Interval → Option (Option Interval)
urem_early x y = if either_bottom x y then some (some bottom) else (do
  dividend ← singleton x
  divisor ← singleton y
  urem_when (both_fit dividend divisor) (urem_constants dividend divisor))

urem_infinite : Interval → Option Interval
urem_infinite x =
    if lt x.ub zero_bound
    then some top
    else do s ← sub x (from_number (pos 1)); some (join s (from_number (pos 0)))

unsigned_bound : Extended.ExtendedNumber → Option Number
unsigned_bound b = do n ← number b; Number.cast_to_unsigned_width n 64

-- The finite dividend's upper endpoint is below the divisor's lower one.
is_below_unsigned : Interval → Interval → Option Bool
is_below_unsigned x y =
    if is_finite x.ub
    then (do a ← unsigned_bound x.ub; b ← unsigned_bound y.lb; some (ltb_ℤ a b))
    else some false

urem_finite : Op
urem_finite x y = do
  below ← is_below_unsigned x y
  if below then some x else (do
    max_divisor ← unsigned_bound y.ub
    largest ← Number.checked_sub max_divisor (pos 1)
    some (new zero_bound (finite largest)))

pub urem_base : Op
urem_base x y = if is_infinite y.lb || is_infinite y.ub then urem_infinite x else urem_finite x y

-- What the remainder joins to those of the halves: the dividend, since by zero it is that.
abbrev pub dividend_join : Interval → Interval
dividend_join x = x

unfoldable pub urem_step : Op → Op
unfolding split_step urem_constants both_fit urem_when urem_early urem_infinite unsigned_bound
    is_below_unsigned urem_finite urem_base
urem_step = split_step urem_early urem_base dividend_join

unfoldable pub urem : Op
unfolding urem_step
urem = urem_step (urem_step (urem_step unreached))
