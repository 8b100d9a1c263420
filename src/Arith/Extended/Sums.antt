-- ===== src/Arith/Extended/Sums.antt =====
-- Sums of extended numbers (src/arith/extended_number.rs) as bounds, far inside the `i128` range.
use prevail_rust.Base.Tests.{◌-◌, ◌^◌, ◌≡◌, refl, arith, some}
use prevail_rust.Base.Int.{ℤ, pos, negsuc, ◌+ℤ◌, neg_ℤ, ◌≤ℤ◌, int_laws, +ℤ_parts, neg_ℤ_parts}
use prevail_rust.Arith.Number.{Number, IsI128, checked, checked_add, checked_neg}
use prevail_rust.Arith.Extended
use prevail_rust.Arith.Extended.{ExtendedNumber, minus_infinity, finite, plus_infinity}
use prevail_rust.Arith.Extended.Order.{Le}

-- A bound that is infinite or of at most 125 bits: what the verifier works with, since products of
-- two 64-bit values fit in 127 bits.
abbrev pub small_limit : ℤ
small_limit = pos (2 ^ 125)

abbrev pub IsSmall : ExtendedNumber → Type 0
IsSmall (finite n) = (negsuc (2 ^ 125 - 1) ≤ℤ n) × (n ≤ℤ small_limit)
IsSmall _ = Unit

-- A result in range does not panic.
pub checked-some : (z : ℤ) → IsI128 z → checked z ≡ some z
checked-some z h = ground arith

checked_add-some :
    (a b : Number) → IsSmall (finite a) → IsSmall (finite b) → checked_add a b ≡ some (a +ℤ b)
unfolding checked_add
checked_add-some a b h k = ground (arith, +ℤ_parts a b)

checked_neg-some : (a : Number) → IsSmall (finite a) → checked_neg a ≡ some (neg_ℤ a)
unfolding checked_neg
checked_neg-some a h = ground (arith, neg_ℤ_parts a)

-- A lower bound of a number: not +oo.
abbrev pub Below : ExtendedNumber → ℤ → Type 0
Below e n = Le e (finite n)

abbrev pub Above : ExtendedNumber → ℤ → Type 0
Above e n = Le (finite n) e

-- The sum of two lower bounds is a lower bound of the sum; likewise above.
pub add-Below :
    (a b : ExtendedNumber) (m n : ℤ)
    → IsSmall a
    → IsSmall b
    → Below a m
    → Below b n
    → (c : ExtendedNumber) × (Extended.add a b ≡ some c) × Below c (m +ℤ n)
unfolding Extended.add
add-Below minus_infinity minus_infinity m n s t h k = (minus_infinity, refl, tt)
add-Below minus_infinity (finite b) m n s t h k = (minus_infinity, refl, tt)
add-Below (finite a) minus_infinity m n s t h k = (minus_infinity, refl, tt)
add-Below (finite a) (finite b) m n s t h k =
    (finite (a +ℤ b), rw (checked_add-some a b s t), omega int_laws)
add-Below plus_infinity b m n s t h k = absurd h
add-Below minus_infinity plus_infinity m n s t h k = absurd k
add-Below (finite a) plus_infinity m n s t h k = absurd k

pub add-Above :
    (a b : ExtendedNumber) (m n : ℤ)
    → IsSmall a
    → IsSmall b
    → Above a m
    → Above b n
    → (c : ExtendedNumber) × (Extended.add a b ≡ some c) × Above c (m +ℤ n)
unfolding Extended.add
add-Above plus_infinity plus_infinity m n s t h k = (plus_infinity, refl, tt)
add-Above plus_infinity (finite b) m n s t h k = (plus_infinity, refl, tt)
add-Above (finite a) plus_infinity m n s t h k = (plus_infinity, refl, tt)
add-Above (finite a) (finite b) m n s t h k =
    (finite (a +ℤ b), rw (checked_add-some a b s t), omega int_laws)
add-Above minus_infinity b m n s t h k = absurd h
add-Above plus_infinity minus_infinity m n s t h k = absurd k
add-Above (finite a) minus_infinity m n s t h k = absurd k

-- Negation swaps the two kinds of bound, and stays small.
pub neg-Above :
    (a : ExtendedNumber) (m : ℤ)
    → IsSmall a
    → Above a m
    → (c : ExtendedNumber) × (Extended.neg a ≡ some c) × IsSmall c × Below c (neg_ℤ m)
unfolding Extended.neg
neg-Above minus_infinity m s h = absurd h
neg-Above (finite a) m s h =
    (finite (neg_ℤ a), rw (checked_neg-some a s), (omega int_laws, omega int_laws), omega int_laws)
neg-Above plus_infinity m s h = (minus_infinity, refl, tt, tt)

pub neg-Below :
    (a : ExtendedNumber) (m : ℤ)
    → IsSmall a
    → Below a m
    → (c : ExtendedNumber) × (Extended.neg a ≡ some c) × IsSmall c × Above c (neg_ℤ m)
unfolding Extended.neg
neg-Below plus_infinity m s h = absurd h
neg-Below (finite a) m s h =
    (finite (neg_ℤ a), rw (checked_neg-some a s), (omega int_laws, omega int_laws), omega int_laws)
neg-Below minus_infinity m s h = (plus_infinity, refl, tt, tt)
