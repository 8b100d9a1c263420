-- ===== src/Crab/Interval/Extend.antt =====
-- Sign and zero extension of intervals and the ranges of the machine widths (src/crab/interval.rs).
use prevail_rust.Base.Tests.{ℕ, Option, none, some, Bool, true, false, ltb, if◌then◌else◌, ◌>>=◌}
use prevail_rust.Base.Int.{pos, negsuc}
use prevail_rust.Arith.Number
use prevail_rust.Arith.Number.{Number}
use prevail_rust.Arith.Extended
use prevail_rust.Arith.Extended.{finite, zero_bound, lt, bound}
use prevail_rust.Crab.Interval.{Interval, new, is_bottom, size, bounds}
pub mod Window
pub mod Shift
pub mod Sound

-- [INT_MIN(width), INT_MAX(width)]
unfoldable pub signed_int : ℕ → Option Interval
signed_int w = bounds (bound (Number.min_int w)) (bound (Number.max_int w))

-- [0, UINT_MAX(width)]
unfoldable pub unsigned_int : ℕ → Option Interval
unsigned_int w = bounds (some zero_bound) (bound (Number.max_uint w))

-- [0, INT_MAX(width)]
unfoldable pub nonnegative : ℕ → Option Interval
nonnegative w = bounds (some zero_bound) (bound (Number.max_int w))

-- [INT_MIN(width), -1]
unfoldable pub negative : ℕ → Option Interval
negative w = bounds (bound (Number.min_int w)) (some (finite (negsuc 0)))

-- [INT_MAX(width) + 1, UINT_MAX(width)]
unfoldable pub unsigned_high : ℕ → Option Interval
unsigned_high w =
    bounds (bound (Number.max_int w >>= λ n. Number.checked_add n (pos 1)))
      (bound (Number.max_uint w))

-- The extended bounds, unless they come out inverted: then the values wrapped, and the result is
-- the whole range of the width.
extended_or_full : Option Number → Option Number → Interval → Option Interval
extended_or_full l u full = do
  extended ← bounds (bound l) (bound u)
  some (if is_bottom extended then full else extended)

-- Where the interval has fewer members than the range, its bounds are extended.
unfoldable pub sign_extend : Interval → ℕ → Option Interval
unfolding extended_or_full
sign_extend x w =
    if ltb 0 w
    then (do
      full ← signed_int w
      s ← size x
      f ← size full
      if lt s f
          then extended_or_full (Extended.sign_extend x.lb w) (Extended.sign_extend x.ub w) full
          else some full)
    else none

unfoldable pub zero_extend : Interval → ℕ → Option Interval
unfolding extended_or_full
zero_extend x w =
    if ltb 0 w
    then (do
      full ← unsigned_int w
      s ← size x
      f ← size full
      if lt s f
          then extended_or_full (Extended.zero_extend x.lb w) (Extended.zero_extend x.ub w) full
          else some full)
    else none

abbrev pub truncate_to_signed : Interval → ℕ → Option Interval
truncate_to_signed = sign_extend

abbrev pub truncate_to_unsigned : Interval → ℕ → Option Interval
truncate_to_unsigned = zero_extend
