-- ===== src/Crab/Interval/Bitwise.antt =====
-- src/crab/interval.rs: the bitwise operations and shifts of intervals. The widths of the masks are
-- natural numbers: the source leaves the interval alone at a width that is not positive.
use prevail_rust.Base.Tests.{
  ℕ, zero, suc, ◌-◌, ◌%◌, ◌^◌, Option, none, some, Bool, true, false, not, ◌&&◌, ◌||◌, leb, ltb,
  if◌then◌else◌, ◌>>=◌,
}
use prevail_rust.Base.Int.{pos, pos_part, negsuc, ltb_ℤ, eqb_ℤ}
use prevail_rust.Arith.Number
use prevail_rust.Arith.Number.{Number, u64_max, checked_mul}
use prevail_rust.Arith.Number.Shift
use prevail_rust.Arith.Extended
use prevail_rust.Arith.Extended.{finite, plus_infinity, zero_bound, lt, le, is_finite}
use prevail_rust.Crab.Interval.{
  Interval, new, bottom, top, from_number, from_number_pair, is_bottom, is_top, singleton, contains,
  eq, mul, pair_number,
}
use prevail_rust.Crab.Interval.Divide.{div}
use prevail_rust.Crab.Interval.Extend.{zero_extend, truncate_to_unsigned}
pub mod Right
pub mod Left

abbrev zero_interval : Interval
zero_interval = from_number (pos 0)

abbrev either_bottom : Interval → Interval → Bool
either_bottom x y = is_bottom x || is_bottom y

-- An operand that may be negative is read as an unsigned 64-bit value.
unfoldable pub unsigned_view : Interval → Option Interval
unsigned_view x = if not (is_top x) && lt x.lb zero_bound then zero_extend x 64 else some x

abbrev is_unsigned : Interval → Bool
is_unsigned x = is_top x || le zero_bound x.lb

abbrev max_uint : ℕ → Number
max_uint w = pos (2 ^ w - 1)

-- The bounds where neither operand is one of the special constants.
abbrev and_bounds : Interval → Interval → Option Interval
and_bounds left right =
    if contains right u64_max
    then (do t ← truncate_to_unsigned left 64; some (new zero_bound t.ub))
    else if not (is_top left) && not (is_top right)
    then some (new zero_bound (Extended.min left.ub right.ub))
    else if not (is_top right)
    then some (new zero_bound right.ub)
    else if not (is_top left)
    then some (new zero_bound left.ub)
    else some top

abbrev and_constant : Interval → Interval → Number → Option Interval
and_constant left right c =
    if eqb_ℤ c (max_uint 64)
    then truncate_to_unsigned left 64
    else if eqb_ℤ c (max_uint 32)
    then zero_extend left 32
    else if eqb_ℤ c (max_uint 16)
    then zero_extend left 16
    else if eqb_ℤ c (max_uint 8)
    then zero_extend left 8
    else and_bounds left right

abbrev and_singletons : Interval → Interval → Option Number → Option Number → Option Interval
and_singletons left right (some l) (some r) = some (from_number (Number.bitand l r))
and_singletons left right none (some r) = and_constant left right r
and_singletons left right l none = and_bounds left right

abbrev and_unsigned : Interval → Interval → Option Interval
and_unsigned left right =
    if is_unsigned left && is_unsigned right
    then if eq left zero_interval || eq right zero_interval
      then some zero_interval
      else and_singletons left right (singleton left) (singleton right)
    else none

unfoldable pub bitwise_and : Interval → Interval → Option Interval
bitwise_and x y =
    if either_bottom x y
    then some bottom
    else (do left ← unsigned_view x; right ← unsigned_view y; and_unsigned left right)

unfoldable pub mask_value : ℕ → Interval → Option Interval
mask_value width x =
    if ltb 0 width && ltb width 64 then bitwise_and x (from_number (max_uint width)) else some x

unfoldable pub mask_shift_count : ℕ → Interval → Option Interval
mask_shift_count width x =
    if ltb 0 width then bitwise_and x (from_number (pos (width - 1))) else some x

abbrev larger : Number → Number → Number
larger a b = if ltb_ℤ b a then a else b

-- Both upper bounds are numbers, or the result has none.
abbrev or_bounds : Option Number → Option Number → Option Interval
or_bounds (some l) (some r) = do m ← Shift.fill_ones (larger l r); some (new zero_bound (finite m))
or_bounds _ _ = some (new zero_bound plus_infinity)

abbrev or_singletons : Interval → Interval → Option Number → Option Number → Option Interval
or_singletons x y (some l) (some r) = some (from_number (Number.bitor l r))
or_singletons x y _ _ =
    if le zero_bound x.lb && le zero_bound y.lb
    then or_bounds (Extended.number x.ub) (Extended.number y.ub)
    else some top

unfoldable pub bitwise_or : Interval → Interval → Option Interval
bitwise_or x y =
    if either_bottom x y then some bottom else or_singletons x y (singleton x) (singleton y)

abbrev xor_singletons : Interval → Interval → Option Number → Option Number → Option Interval
xor_singletons x y (some l) (some r) = some (from_number (Number.bitxor l r))
xor_singletons x y _ _ = bitwise_or x y

unfoldable pub bitwise_xor : Interval → Interval → Option Interval
bitwise_xor x y =
    if either_bottom x y then some bottom else xor_singletons x y (singleton x) (singleton y)

-- The loop `while k > i`, which doubles the factor k times.
unfoldable pub power : ℕ → Option Number
power zero = some (pos 1)
power (suc k) = power k >>= λ factor. checked_mul factor (pos 2)

-- The outer `none` is a panic, the inner one the source's `None`.
abbrev pub power_of_shift : Option Number → Option (Option Number)
power_of_shift none = some none
power_of_shift (some (negsuc k)) = some none
power_of_shift (some (pos k)) =
    if ltb 128 k then some none else power k >>= λ factor. some (some factor)

unfoldable pub shift_to_power_of_two : Interval → Option (Option Number)
shift_to_power_of_two x = power_of_shift (singleton x)

abbrev by_factor :
    (Interval → Interval → Option Interval) → Interval → Option Number → Option Interval
by_factor op x (some factor) = op x (from_number factor)
by_factor op x none = some top

unfoldable pub shl : Interval → Interval → Option Interval
shl x y =
    if either_bottom x y then some bottom else shift_to_power_of_two y >>= λ f. by_factor mul x f

unfoldable pub ashr : Interval → Interval → Option Interval
ashr x y =
    if either_bottom x y then some bottom else shift_to_power_of_two y >>= λ f. by_factor div x f

-- `shift.narrow_to_u64() as u32`
abbrev pub shift_bounds : Interval → Number → Option Interval
shift_bounds x shift = do
  s ← Number.narrow_to_u64 shift
  (l, u) ← pair_number x
  l' ← Shift.shr l (pos_part s % 2 ^ 32)
  u' ← Shift.shr u (pos_part s % 2 ^ 32)
  some (from_number_pair l' u')

abbrev pub lshr_constant : Interval → Option Number → Option Interval
lshr_constant x none = some top
lshr_constant x (some shift) =
    if Number.is_positive shift && le zero_bound x.lb && is_finite x.ub
    then shift_bounds x shift
    else some top

unfoldable pub lshr : Interval → Interval → Option Interval
lshr x y = if either_bottom x y then some bottom else lshr_constant x (singleton y)
