-- ===== src/Crab/Interval/Divide.antt =====
-- The divisions of src/crab/interval.rs. The source's functions call themselves on
-- the halves of an operand that holds zero; here each is a step over the function that it calls, and
-- the function is three steps deep. The fourth call would be made by a step that splits nothing.
use prevail_rust.Base.Tests.{
  Option, none, some, Bool, true, false, not, ◌&&◌, ◌||◌, if◌then◌else◌, ◌>>=◌,
}
use prevail_rust.Base.Int.{pos, negsuc, leb_ℤ, ltb_ℤ, eqb_ℤ}
use prevail_rust.Arith.Number
use prevail_rust.Arith.Number.{Number}
use prevail_rust.Arith.Extended
use prevail_rust.Arith.Extended.{
  ExtendedNumber, finite, zero_bound, lt, le, is_infinite, is_finite, bound,
}
use prevail_rust.Crab.Interval.{
  Interval, new, bottom, top, from_number, is_bottom, singleton, contains, join, add, sub, bounds,
  corners, min4, max4, pair_number,
}
pub mod Remainder
pub mod Depth

abbrev pub Op : Type 0
Op = Interval → Interval → Option Interval

-- A call that is never made.
abbrev pub unreached : Op
unreached x y = none

abbrev zero : Interval
zero = from_number (pos 0)

-- `halves_excluding_zero`: below zero and above zero.
unfoldable pub lower_half : Interval → Interval
lower_half i = new i.lb (finite (negsuc 0))

unfoldable pub upper_half : Interval → Interval
upper_half i = new (finite (pos 1)) i.ub

unfoldable pub try_split_divisor_at_zero :
    Interval → Interval → Op → Interval → Option (Option Interval)
try_split_divisor_at_zero dividend divisor op zero_join =
    if contains divisor (pos 0)
    then some (do
      lo ← op dividend (lower_half divisor)
      hi ← op dividend (upper_half divisor)
      some (join (join lo hi) zero_join))
    else none

unfoldable pub try_split_dividend_at_zero :
    Interval → Interval → Op → Interval → Option (Option Interval)
try_split_dividend_at_zero dividend divisor op zero_join =
    if contains dividend (pos 0)
    then some (do
      lo ← op (lower_half dividend) divisor
      hi ← op (upper_half dividend) divisor
      some (join (join lo hi) zero_join))
    else none

-- `if let Some(r) = early { return r; }`.
abbrev pub or_else {ℓ} : {A : Type ℓ} → Option A → A → A
or_else (some r) rest = r
or_else none rest = rest

-- An early return, else the split of the divisor, else that of the dividend, else the base case.
unfoldable pub split_step :
    (Interval → Interval → Option (Option Interval)) → Op → (Interval → Interval) → Op → Op
split_step early base join_with op x y = or_else (early x y) (
    or_else (try_split_divisor_at_zero x y op (join_with x))
      (or_else (try_split_dividend_at_zero x y op (join_with x)) (base x y)))

-- An endpoint over a negative constant: an infinite one flips its sign.
unfoldable pub divide_bound_by_negative_singleton : ExtendedNumber → Number → Option ExtendedNumber
divide_bound_by_negative_singleton b d =
    if ltb_ℤ d (pos 0)
    then if is_infinite b then Extended.neg b else Extended.div b (finite d)
    else none

-- Signed division by a constant; by zero it is zero.
unfoldable pub divide_by_constant : Interval → Number → Option Interval
divide_by_constant x c =
    if eqb_ℤ c (pos 1)
    then some x
    else if ltb_ℤ (pos 0) c
    then bounds (Extended.div x.lb (finite c)) (Extended.div x.ub (finite c))
    else if ltb_ℤ c (pos 0)
    then bounds (divide_bound_by_negative_singleton x.ub c)
        (divide_bound_by_negative_singleton x.lb c)
    else some zero

-- What the divisions join to the quotients of the halves: division by zero is zero.
abbrev zero_join : Interval → Interval
zero_join _ = zero

abbrev pub either_bottom : Interval → Interval → Bool
either_bottom x y = is_bottom x || is_bottom y

div_early : Interval → Interval → Option (Option Interval)
div_early x y =
    if either_bottom x y
    then some (some bottom)
    else elim (singleton y) [ some c ↦ some (divide_by_constant x c) | none ↦ none ]

-- `signed_div_tail` past the splits: the quotients at the corners.
signed_div_corners : Op
signed_div_corners x y = corners Extended.div x y

unfoldable pub div_step : Op → Op
unfolding split_step div_early signed_div_corners
div_step = split_step div_early signed_div_corners zero_join

unfoldable pub div : Op
unfolding div_step
div = div_step (div_step (div_step unreached))

-- A constant divisor outside the `i64` range is not special.
sdiv_early : Interval → Interval → Option (Option Interval)
sdiv_early x y =
    if either_bottom x y then some (some bottom) else elim (singleton y >>= λ n. Number.to_i64 n) [
      | some c ↦ some (divide_by_constant x c)
      | none ↦ none
    ]

unfoldable pub sdiv_step : Op → Op
unfolding split_step sdiv_early signed_div_corners
sdiv_step = split_step sdiv_early signed_div_corners zero_join

unfoldable pub sdiv : Op
unfolding sdiv_step
sdiv = sdiv_step (sdiv_step (sdiv_step unreached))

-- `make_dividend_when_both_nonzero`.
unfoldable pub make_dividend_when_both_nonzero : Op
make_dividend_when_both_nonzero dividend divisor =
    if le zero_bound dividend.ub
    then some dividend
    else if lt divisor.ub zero_bound
    then (do s ← add dividend divisor; add s (from_number (pos 1)))
    else (do s ← add dividend (from_number (pos 1)); sub s divisor)

udiv_constant : Interval → Number → Option Interval
udiv_constant x n = do
  c ← Number.cast_to_unsigned_width n 64
  if eqb_ℤ c (pos 1)
      then some x
      else if ltb_ℤ (pos 0) c
      then bounds (Extended.udiv x.lb (finite c)) (Extended.udiv x.ub (finite c))
      else some zero

udiv_early : Interval → Interval → Option (Option Interval)
udiv_early x y = if either_bottom x y then some (some bottom) else elim (singleton y) [
  | some n ↦ elim (Number.fits_cast_to n 64) [
    | some true ↦ some (udiv_constant x n)
    | some false ↦ none
    | none ↦ some none
  ]
  | none ↦ none
]

udiv_corners : Op
udiv_corners x y = do a ← make_dividend_when_both_nonzero x y; corners Extended.udiv a y

unfoldable pub udiv_step : Op → Op
unfolding split_step udiv_early udiv_constant udiv_corners
udiv_step = split_step udiv_early udiv_corners zero_join

unfoldable pub udiv : Op
unfolding udiv_step
udiv = udiv_step (udiv_step (udiv_step unreached))
