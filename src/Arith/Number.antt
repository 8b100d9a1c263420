-- ===== src/Arith/Number.antt =====
-- src/arith/number.rs: `Number`, an `i128` whose operations panic on overflow. A panic is `none`.
-- A failing `debug_assert!` is a panic, as in a debug build. Widths are natural numbers: the source
-- passes 8, 16, 32 or 64 and casts them to `u32` before it computes.
use Prim.Native.Nat.{bit_and, bit_or, bit_xor}
use prevail_rust.Base.Tests.{
  ℕ, zero, suc, ◌+◌, ◌-◌, ◌*◌, ◌/◌, ◌^◌, Option, none, some, Bool, true, not, ◌&&◌, ◌||◌, ltb, leb,
  ◌==◌, if◌then◌else◌, ◌>>=◌,
}
use prevail_rust.Base.Int.{
  ℤ, pos, negsuc, ◌+ℤ◌, ◌-ℤ◌, ◌*ℤ◌, ◌≤ℤ◌, neg_ℤ, tdiv_ℤ, trem_ℤ, ltb_ℤ, leb_ℤ, eqb_ℤ, nat_abs,
}
pub mod Residue
pub mod Extend
pub mod Cast
pub mod Shift

-- The wrapped `i128`. That it lies in range is the predicate `IsI128`.
abbrev pub Number : Type 0
Number = ℤ

abbrev pub i128_min : ℤ
i128_min = negsuc (2 ^ 127 - 1)

abbrev pub i128_max : ℤ
i128_max = pos (2 ^ 127 - 1)

abbrev pub IsI128 : ℤ → Type 0
IsI128 z = (i128_min ≤ℤ z) × (z ≤ℤ i128_max)

-- The outcome of a checked operation of `i128` whose exact result is `z`.
abbrev pub checked : ℤ → Option Number
checked z = if leb_ℤ i128_min z && leb_ℤ z i128_max then some z else none

unfoldable pub checked_add : Number → Number → Option Number
checked_add a b = checked (a +ℤ b)

unfoldable pub checked_sub : Number → Number → Option Number
checked_sub a b = checked (a -ℤ b)

unfoldable pub checked_mul : Number → Number → Option Number
checked_mul a b = checked (a *ℤ b)

unfoldable pub checked_neg : Number → Option Number
checked_neg a = checked (neg_ℤ a)

unfoldable pub checked_div : Number → Number → Option Number
checked_div a b = if eqb_ℤ b (pos 0) then none else checked (tdiv_ℤ a b)

-- `i128::MIN % -1` overflows as the division does.
unfoldable pub checked_rem : Number → Number → Option Number
checked_rem a b = if eqb_ℤ b (pos 0) then none else checked (tdiv_ℤ a b) >>= λ _. some (trem_ℤ a b)

unfoldable pub is_zero : Number → Bool
is_zero a = eqb_ℤ a (pos 0)

unfoldable pub is_negative : Number → Bool
is_negative a = ltb_ℤ a (pos 0)

unfoldable pub is_positive : Number → Bool
is_positive a = ltb_ℤ (pos 0) a

unfoldable pub abs : Number → Option Number
abs a = checked (pos (nat_abs a))

-- The two's complement bits of an `i128`, and the number that 128 bits stand for.
abbrev pub to_bits : Number → ℕ
to_bits (pos n) = n
to_bits (negsuc n) = 2 ^ 128 - 1 - n

abbrev pub of_bits : ℕ → Number
of_bits n = if ltb n (2 ^ 127) then pos n else negsuc (2 ^ 128 - 1 - n)

unfoldable pub bitand : Number → Number → Number
bitand a b = of_bits (bit_and (to_bits a) (to_bits b))

unfoldable pub bitor : Number → Number → Number
bitor a b = of_bits (bit_or (to_bits a) (to_bits b))

unfoldable pub bitxor : Number → Number → Number
bitxor a b = of_bits (bit_xor (to_bits a) (to_bits b))

-- `1i128 << w` for the widths that the assertions let through.
abbrev pub pow2 : ℕ → Number
pow2 w = pos (2 ^ w)

-- `self.0 & ((1i128 << w) - 1)`.
abbrev pub low_bits : ℕ → Number → Number
low_bits w a = bitand a (pow2 w -ℤ pos 1)

unfoldable pub sign_extend : Number → ℕ → Option Number
sign_extend a zero = some a
sign_extend a (suc k) =
    let w = suc k in
    let truncated = low_bits w a in
    if leb w 64
    then if eqb_ℤ (bitand truncated (pow2 (w - 1))) (pos 0)
      then some truncated
      else checked (truncated -ℤ pow2 w)
    else none

unfoldable pub zero_extend : Number → ℕ → Option Number
zero_extend a zero = some a
zero_extend a (suc k) = if leb (suc k) 64 then some (low_bits (suc k) a) else none

-- -(1 << (width - 1)) and (1 << (width - 1)) - 1.
abbrev pub signed_min : ℕ → ℤ
signed_min w = neg_ℤ (pow2 (w - 1))

abbrev pub signed_max : ℕ → ℤ
signed_max w = pow2 (w - 1) -ℤ pos 1

abbrev pub unsigned_max : ℕ → ℤ
unsigned_max w = pow2 w -ℤ pos 1

-- A value that fits neither the signed nor the unsigned range of the width panics. At width 0 the
-- subtraction `width - 1` of `u32` panics.
unfoldable pub cast_to_signed_width : Number → ℕ → Option Number
cast_to_signed_width a w =
    if leb w 64 && ltb 0 w
    then if leb_ℤ (signed_min w) a && leb_ℤ a (signed_max w)
      then some a
      else if leb_ℤ (pos 0) a && leb_ℤ a (unsigned_max w)
      then if leb_ℤ (pow2 (w - 1)) a then checked (a -ℤ pow2 w) else some a
      else none
    else none

unfoldable pub cast_to_unsigned_width : Number → ℕ → Option Number
cast_to_unsigned_width a w =
    if leb w 64
    then if leb_ℤ (pos 0) a && leb_ℤ a (unsigned_max w)
      then some a
      else if ltb 0 w && (leb_ℤ (signed_min w) a && leb_ℤ a (signed_max w))
      then if ltb_ℤ a (pos 0) then checked (a +ℤ pow2 w) else some a
      else none
    else none

unfoldable pub max_uint : ℕ → Option Number
max_uint w = if leb w 64 then some (unsigned_max w) else none

unfoldable pub max_int : ℕ → Option Number
max_int w = if leb w 64 && ltb 0 w then some (signed_max w) else none

unfoldable pub min_int : ℕ → Option Number
min_int w = if leb w 64 && ltb 0 w then some (signed_min w) else none

-- The conversions `to_i32`, `to_u32`, `to_i64`, `to_u64`; the narrowing ones panic on the same
-- values for which these answer `None`.
abbrev pub i64_min : ℤ
i64_min = negsuc (2 ^ 63 - 1)

abbrev pub i64_max : ℤ
i64_max = pos (2 ^ 63 - 1)

abbrev pub u64_max : ℤ
u64_max = pos (2 ^ 64 - 1)

unfoldable pub to_i32 : Number → Option Number
to_i32 a = if leb_ℤ (negsuc (2 ^ 31 - 1)) a && leb_ℤ a (pos (2 ^ 31 - 1)) then some a else none

unfoldable pub to_u32 : Number → Option Number
to_u32 a = if leb_ℤ (pos 0) a && leb_ℤ a (pos (2 ^ 32 - 1)) then some a else none

unfoldable pub to_i64 : Number → Option Number
to_i64 a = if leb_ℤ i64_min a && leb_ℤ a i64_max then some a else none

unfoldable pub to_u64 : Number → Option Number
to_u64 a = if leb_ℤ (pos 0) a && leb_ℤ a u64_max then some a else none

unfoldable pub narrow_to_i64 : Number → Option Number
narrow_to_i64 a = to_i64 a

unfoldable pub narrow_to_u64 : Number → Option Number
narrow_to_u64 a = to_u64 a

-- At width 0 the source's `width - 1` panics.
unfoldable pub fits_signed : Number → ℕ → Option Bool
fits_signed a w =
    if leb 128 w
    then some true
    else if ltb 0 w
    then some (leb_ℤ (signed_min w) a && leb_ℤ a (signed_max w))
    else none

unfoldable pub fits_unsigned : Number → ℕ → Bool
fits_unsigned a w = not (ltb_ℤ a (pos 0)) && (leb 127 w || ltb_ℤ a (pow2 w))

unfoldable pub fits_cast_to : Number → ℕ → Option Bool
fits_cast_to a w = fits_signed a w >>= λ s. some (s || fits_unsigned a w)

unfoldable pub truncate_to_signed : Number → ℕ → Option Number
truncate_to_signed a w =
    let unsigned_val = low_bits w a in
    if leb w 64 && ltb 0 w
    then if leb_ℤ (pow2 (w - 1)) unsigned_val
      then checked (unsigned_val -ℤ pow2 w)
      else some unsigned_val
    else none

unfoldable pub truncate_to_unsigned : Number → ℕ → Option Number
truncate_to_unsigned a w = if leb w 64 then some (low_bits w a) else none
