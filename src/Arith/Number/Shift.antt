-- ===== src/Arith/Number/Shift.antt =====
-- src/arith/number.rs: `fill_ones` and the right shift.
use prevail_rust.Base.Tests.{
  ℕ, zero, suc, ◌-◌, ◌/◌, ◌^◌, Option, none, some, ltb, ◌==◌, if◌then◌else◌,
}
use prevail_rust.Base.Int.{pos, negsuc}
use prevail_rust.Arith.Number.{Number}

-- 128 less the leading zeros, of a number below 2 ^ 128.
bit_length : ℕ → ℕ → ℕ
bit_length zero n = 0
bit_length (suc fuel) n = let rest = bit_length fuel (n / 2) in if n == 0 then 0 else suc rest

-- A negative number has no leading zero, and panics.
unfoldable pub fill_ones : Number → Option Number
unfolding bit_length
fill_ones (pos n) = if n == 0 then some (pos 0) else some (pos (2 ^ bit_length 128 n - 1))
fill_ones (negsuc n) = none

-- The arithmetic shift of an `i128` rounds down, and panics from 128 places on.
unfoldable pub shr : Number → ℕ → Option Number
shr (pos n) s = if ltb s 128 then some (pos (n / 2 ^ s)) else none
shr (negsuc n) s = if ltb s 128 then some (negsuc (n / 2 ^ s)) else none
