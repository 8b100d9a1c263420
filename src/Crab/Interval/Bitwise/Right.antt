-- ===== src/Crab/Interval/Bitwise/Right.antt =====
-- The logical right shift of src/crab/interval.rs over the members of an interval.
use native.Mathlib.Nat.{le-div_iff_mul-le, div-mul-le_self}
use prevail_rust.Base.Tests.{
  ℕ, ◌-◌, ◌/◌, ◌%◌, ◌^◌, ◌<◌, ◌≤◌, ◌≡◌, some, true, false, arith, refl, ltb, leb, ◌+◌,
}
use prevail_rust.Base.Bits.{pow2_pos}
use prevail_rust.Base.Int.{ℤ, pos, leb_ℤ, ltb_ℤ, negsuc}
use prevail_rust.Arith.Number.{narrow_to_u64, to_u64, is_positive}
use prevail_rust.Arith.Number.Shift.{shr}
use prevail_rust.Arith.Extended.{
  ExtendedNumber, le, zero_bound, finite, minus_infinity, plus_infinity,
}
use prevail_rust.Arith.Extended.Order.{Le}
use prevail_rust.Crab.Interval.{
  Interval, new, top, is_bottom, singleton, from_number_pair, pair_number,
}
use prevail_rust.Crab.Interval.Member.{Contains, new-Contains, Contains-not_bottom}
use prevail_rust.Crab.Interval.Sums.{Holds}
use prevail_rust.Crab.Interval.Bitwise.{lshr, lshr_constant, shift_bounds}

div_mono : (k l n : ℕ) → 0 < k → l ≤ n → l / k ≤ n / k
div_mono k l n h m =
    (le-div_iff_mul-le {k = k} {x = l / k} {y = n} h).1 (omega (arith, div-mul-le_self l k))

positive : (s : ℕ) → 0 < s → ltb_ℤ (pos 0) (pos s) ≡ true
positive s p = ground arith

nonnegative : (n : ℕ) → le zero_bound (finite (pos n)) ≡ true
nonnegative n = ground arith

negative : (n : ℕ) → le zero_bound (finite (negsuc n)) ≡ false
negative n = ground arith

full : (n : ℤ) → Holds (some top) n
full n = (top, refl, record { above = tt; below = tt })

shift_bounds-Contains :
    (l u n s : ℕ)
    → l ≤ n
    → n ≤ u
    → s < 128
    → Holds
        (shift_bounds (record { lb = finite (pos l); ub = finite (pos u) }) (pos s))
        (pos (n / 2 ^ s))
unfolding narrow_to_u64 to_u64 pair_number shr from_number_pair
shift_bounds-Contains l u n s h k small =
    rw (fits, above_zero, low, in_range)
      ((
        new (finite (pos (l / 2 ^ s))) (finite (pos (u / 2 ^ s))),
        refl,
        (new-Contains (finite (pos (l / 2 ^ s))) (finite (pos (u / 2 ^ s))) (pos (n / 2 ^ s))).1 (
          omega (arith, div_mono (2 ^ s) l n (pow2_pos s) h),
          omega (arith, div_mono (2 ^ s) n u (pow2_pos s) k),
        ),
      ))
  where
    fits : leb (s + 0) (2 ^ 64 - 1 + 0) ≡ true
    fits = ground arith

    above_zero : leb_ℤ (pos 0) (pos s) ≡ true
    above_zero = ground arith

    low : s % 2 ^ 32 ≡ s
    low = omega arith

    in_range : ltb s 128 ≡ true
    in_range = ground arith

-- By the bounds: only numbers that are not negative are shifted, and all else is the full range.
lshr_bounds-Contains :
    (l u : ExtendedNumber) (n s : ℕ)
    → Le l (finite (pos n))
    → Le (finite (pos n)) u
    → 0 < s
    → s < 128
    → Holds (lshr_constant (record { lb = l; ub = u }) (some (pos s))) (pos (n / 2 ^ s))
unfolding is_positive
lshr_bounds-Contains (finite (pos l)) (finite (pos u)) n s a b p h =
    rw (positive s p, nonnegative l)
      (shift_bounds-Contains l u n s (omega (arith, a)) (omega (arith, b)) h)
lshr_bounds-Contains (finite (pos l)) (finite (negsuc u)) n s a b p h = absurd (omega (arith, b))
lshr_bounds-Contains (finite (pos l)) plus_infinity n s a b p h =
    rw (positive s p, nonnegative l) (full (pos (n / 2 ^ s)))
lshr_bounds-Contains (finite (pos l)) minus_infinity n s a b p h = elim b [ ]
lshr_bounds-Contains plus_infinity u n s a b p h = elim a [ ]
lshr_bounds-Contains (finite (negsuc l)) u n s a b p h =
    rw (positive s p, negative l) (full (pos (n / 2 ^ s)))
lshr_bounds-Contains minus_infinity u n s a b p h = rw (positive s p) (full (pos (n / 2 ^ s)))

-- For an interval and a member of it that is not negative, and an interval that holds one
-- constant from 1 to 127, the logical right shift does not panic and contains the quotient of
-- the member by the power of two.
pub lshr-Contains :
    (x y : Interval) (n s : ℕ)
    → Contains x (pos n)
    → is_bottom y ≡ false
    → singleton y ≡ some (pos s)
    → 0 < s
    → s < 128
    → Holds (lshr x y) (pos (n / 2 ^ s))
unfolding lshr
lshr-Contains x y n s c whole constant p h =
    rw (Contains-not_bottom x (pos n) c, whole, constant)
      (lshr_bounds-Contains x.lb x.ub n s c.above c.below p h)
