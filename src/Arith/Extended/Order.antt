-- ===== src/Arith/Extended/Order.antt =====
-- The order of extended numbers (src/arith/extended_number.rs) as a relation.
use prevail_rust.Base.Tests.{◌≡◌, true, false, inl, inr, arith, Bool-cases}
use prevail_rust.Base.Int.{◌≤ℤ◌, eq_of_parts}
use prevail_rust.Arith.Extended.{
  ExtendedNumber, minus_infinity, finite, plus_infinity, lt, le, min, max,
}

abbrev pub Le : ExtendedNumber → ExtendedNumber → Type 0
Le minus_infinity b = Unit
Le (finite a) minus_infinity = ⊥
Le (finite a) (finite b) = a ≤ℤ b
Le (finite a) plus_infinity = Unit
Le plus_infinity minus_infinity = ⊥
Le plus_infinity (finite b) = ⊥
Le plus_infinity plus_infinity = Unit

pub le→Le : (a b : ExtendedNumber) → le a b ≡ true → Le a b
le→Le minus_infinity b h = tt
le→Le (finite a) minus_infinity h = cc
le→Le (finite a) (finite b) h = ground arith
le→Le (finite a) plus_infinity h = tt
le→Le plus_infinity minus_infinity h = cc
le→Le plus_infinity (finite b) h = cc
le→Le plus_infinity plus_infinity h = tt

pub Le→le : (a b : ExtendedNumber) → Le a b → le a b ≡ true
Le→le minus_infinity b h = ground arith
Le→le (finite a) minus_infinity h = absurd h
Le→le (finite a) (finite b) h = ground arith
Le→le (finite a) plus_infinity h = ground arith
Le→le plus_infinity minus_infinity h = absurd h
Le→le plus_infinity (finite b) h = absurd h
Le→le plus_infinity plus_infinity h = ground arith

pub not_lt→Le : (a b : ExtendedNumber) → lt b a ≡ false → Le a b
not_lt→Le a b h = le→Le a b (rw h)

pub lt→Le : (a b : ExtendedNumber) → lt a b ≡ true → Le a b
lt→Le minus_infinity b h = tt
lt→Le (finite a) minus_infinity h = cc
lt→Le (finite a) (finite b) h = ground arith
lt→Le (finite a) plus_infinity h = tt
lt→Le plus_infinity b h = cc

pub Le→not_lt : (a b : ExtendedNumber) → Le a b → lt b a ≡ false
Le→not_lt a b h = ground (arith, Le→le a b h)

pub Le_refl : (a : ExtendedNumber) → Le a a
Le_refl minus_infinity = tt
Le_refl (finite a) = omega arith
Le_refl plus_infinity = tt

pub Le_trans : (a b c : ExtendedNumber) → Le a b → Le b c → Le a c
Le_trans minus_infinity b c h k = tt
Le_trans (finite a) minus_infinity c h k = absurd h
Le_trans (finite a) (finite b) minus_infinity h k = absurd k
Le_trans (finite a) (finite b) (finite c) h k = omega arith
Le_trans (finite a) (finite b) plus_infinity h k = tt
Le_trans (finite a) plus_infinity minus_infinity h k = absurd k
Le_trans (finite a) plus_infinity (finite c) h k = absurd k
Le_trans (finite a) plus_infinity plus_infinity h k = tt
Le_trans plus_infinity minus_infinity c h k = absurd h
Le_trans plus_infinity (finite b) c h k = absurd h
Le_trans plus_infinity plus_infinity c h k = k

pub Le_antisym : (a b : ExtendedNumber) → Le a b → Le b a → a ≡ b
Le_antisym minus_infinity minus_infinity h k = cc
Le_antisym minus_infinity (finite b) h k = absurd k
Le_antisym minus_infinity plus_infinity h k = absurd k
Le_antisym (finite a) minus_infinity h k = absurd h
Le_antisym (finite a) (finite b) h k = cc (eq_of_parts a b (omega arith))
Le_antisym (finite a) plus_infinity h k = absurd k
Le_antisym plus_infinity minus_infinity h k = absurd h
Le_antisym plus_infinity (finite b) h k = absurd h
Le_antisym plus_infinity plus_infinity h k = cc

module _ (a b : ExtendedNumber) where
  -- `min` is the greatest lower bound.
  pub min_lem : Le (min a b) a × Le (min a b) b
  min_lem = elim (Bool-cases (lt b a)) [
    | inl h ↦ rw h (lt→Le b a h, Le_refl b)
    | inr h ↦ rw h (Le_refl a, not_lt→Le a b h)
  ]

  -- `max` is the least upper bound.
  pub max_lem : Le a (max a b) × Le b (max a b)
  max_lem = elim (Bool-cases (lt b a)) [
    | inl h ↦ rw h (Le_refl a, lt→Le b a h)
    | inr h ↦ rw h (not_lt→Le a b h, Le_refl b)
  ]

  pub le_min : (c : ExtendedNumber) → Le c a → Le c b → Le c (min a b)
  le_min c h k = elim (Bool-cases (lt b a)) [ inl e ↦ rw e k | inr e ↦ rw e h ]

  pub max_le : (c : ExtendedNumber) → Le a c → Le b c → Le (max a b) c
  max_le c h k = elim (Bool-cases (lt b a)) [ inl e ↦ rw e h | inr e ↦ rw e k ]
