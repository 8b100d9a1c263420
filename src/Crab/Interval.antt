-- ===== src/Crab/Interval.antt =====
-- src/crab/interval.rs: intervals of extended numbers, their lattice and their sums. An operation
-- that may reach a panic answers an `Option`; its children have the division and bitwise operations.
use prevail_rust.Base.Tests.{
  ℕ, zero, suc, Option, none, some, Bool, true, false, ◌&&◌, ◌||◌, if◌then◌else◌, ◌>>=◌,
}
use prevail_rust.Base.Int.{pos, negsuc}
use prevail_rust.Arith.Number.{Number}
use prevail_rust.Arith.Extended
use prevail_rust.Arith.Extended.{
  ExtendedNumber, minus_infinity, finite, plus_infinity, lt, le, is_infinite, is_finite,
}
pub mod Member
pub mod Lattice
pub mod Widen
pub mod Sums
pub mod Divide
pub mod Extend
pub mod Bitwise

pub record Interval : Type 0 where
  pub lb : ExtendedNumber
  pub ub : ExtendedNumber

abbrev pub top : Interval
top = record { lb = minus_infinity; ub = plus_infinity }

abbrev pub bottom : Interval
bottom = record { lb = finite (pos 0); ub = finite (negsuc 0) }

-- `Interval::new`: inverted bounds give bottom.
unfoldable pub new : ExtendedNumber → ExtendedNumber → Interval
new l u = if lt u l then bottom else record { lb = l; ub = u }

abbrev pub from_number : Number → Interval
from_number n = record { lb = finite n; ub = finite n }

unfoldable pub from_number_pair : Number → Number → Interval
unfolding new
from_number_pair l u = new (finite l) (finite u)

abbrev pub is_bottom : Interval → Bool
is_bottom i = lt i.ub i.lb

abbrev pub is_top : Interval → Bool
is_top i = is_infinite i.lb && is_infinite i.ub

abbrev pub is_singleton : Interval → Bool
is_singleton i = Extended.eq i.lb i.ub

unfoldable pub singleton : Interval → Option Number
singleton i = if is_singleton i then Extended.number i.lb else none

unfoldable pub contains : Interval → Number → Bool
contains i n = if is_bottom i then false else le i.lb (finite n) && le (finite n) i.ub

-- `PartialEq`: all bottoms are equal.
unfoldable pub eq : Interval → Interval → Bool
eq x y = if is_bottom x then is_bottom y else Extended.eq x.lb y.lb && Extended.eq x.ub y.ub

unfoldable pub size : Interval → Option ExtendedNumber
size i =
    if is_bottom i
    then some (finite (pos 0))
    else Extended.sub i.ub i.lb >>= λ d. Extended.add d (finite (pos 1))

unfoldable pub finite_size : Interval → Option (Option Number)
finite_size i = Extended.sub i.ub i.lb >>= λ d. some (Extended.number d)

-- The two bounds as numbers.
unfoldable pub pair_number : Interval → Option (Number × Number)
pair_number i = do l ← Extended.number i.lb; u ← Extended.number i.ub; some (l, u)

unfoldable pub is_included_in : Interval → Interval → Bool
is_included_in x y =
    if is_bottom x then true else if is_bottom y then false else le y.lb x.lb && le x.ub y.ub

unfoldable pub join : Interval → Interval → Interval
join x y =
    if is_bottom x
    then y
    else if is_bottom y
    then x
    else new (Extended.min x.lb y.lb) (Extended.max x.ub y.ub)

unfoldable pub meet : Interval → Interval → Interval
meet x y =
    if is_bottom x || is_bottom y
    then bottom
    else new (Extended.max x.lb y.lb) (Extended.min x.ub y.ub)

unfoldable pub widen : Interval → Interval → Interval
widen x y = if is_bottom x then y else if is_bottom y then x else record {
  lb = if lt y.lb x.lb then minus_infinity else x.lb;
  ub = if lt x.ub y.ub then plus_infinity else x.ub;
}

unfoldable pub narrow : Interval → Interval → Interval
narrow x y = if is_bottom x || is_bottom y then bottom else record {
  lb = if is_infinite x.lb && is_finite y.lb then y.lb else x.lb;
  ub = if is_infinite x.ub && is_finite y.ub then y.ub else x.ub;
}

-- `Interval::new` of two bounds that may have panicked.
abbrev pub bounds : Option ExtendedNumber → Option ExtendedNumber → Option Interval
bounds l u = do a ← l; b ← u; some (new a b)

unfoldable pub add : Interval → Interval → Option Interval
add x y =
    if is_bottom x || is_bottom y
    then some bottom
    else bounds (Extended.add x.lb y.lb) (Extended.add x.ub y.ub)

unfoldable pub negate : Interval → Option Interval
negate x = if is_bottom x then some bottom else bounds (Extended.neg x.ub) (Extended.neg x.lb)

unfoldable pub sub : Interval → Interval → Option Interval
sub x y =
    if is_bottom x || is_bottom y
    then some bottom
    else bounds (Extended.sub x.lb y.ub) (Extended.sub x.ub y.lb)

-- The least and the greatest of four bounds, as the iterators compute them.
abbrev pub min4 : ExtendedNumber → ExtendedNumber → ExtendedNumber → ExtendedNumber → ExtendedNumber
min4 a b c d = Extended.min (Extended.min (Extended.min a b) c) d

abbrev pub max4 : ExtendedNumber → ExtendedNumber → ExtendedNumber → ExtendedNumber → ExtendedNumber
max4 a b c d = Extended.max (Extended.max (Extended.max a b) c) d

-- The interval that spans an operation's results at the four corners of the operands.
abbrev pub corners :
    (ExtendedNumber → ExtendedNumber → Option ExtendedNumber)
    → Interval
    → Interval
    → Option Interval
corners f x y = do
  a ← f x.lb y.lb
  b ← f x.lb y.ub
  c ← f x.ub y.lb
  d ← f x.ub y.ub
  some (new (min4 a b c d) (max4 a b c d))

unfoldable pub mul : Interval → Interval → Option Interval
mul x y = if is_bottom x || is_bottom y then some bottom else corners Extended.mul x y
