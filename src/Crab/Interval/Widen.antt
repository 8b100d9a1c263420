-- ===== src/Crab/Interval/Widen.antt =====
-- Widening and narrowing of src/crab/interval.rs.
use prevail_rust.Base.Tests.{
  ℕ, ◌+◌, ◌<◌, ◌≡◌, refl, true, false, ◌&&◌, arith, inl, inr, ◌⊎◌, Bool-cases, and-true, or_true,
  ◌≤◌, if◌then◌else◌,
}
use prevail_rust.Base.Int.{ℤ}
use prevail_rust.Arith.Extended.{
  ExtendedNumber, minus_infinity, finite, plus_infinity, lt, le, is_infinite, is_finite,
}
use prevail_rust.Arith.Extended.Order.{Le, le→Le, Le_trans, Le_refl, not_lt→Le, Le→not_lt}
use prevail_rust.Crab.Interval.{Interval, bottom, is_bottom, is_included_in, widen, narrow}
use prevail_rust.Crab.Interval.Member.{Contains, bottom-Contains, Contains-mono}
use prevail_rust.Crab.Interval.Lattice.{in_other, in_first}

abbrev low : ExtendedNumber → ExtendedNumber → ExtendedNumber
low a b = if lt b a then minus_infinity else a

abbrev high : ExtendedNumber → ExtendedNumber → ExtendedNumber
high a b = if lt a b then plus_infinity else a

low_lem : (a b : ExtendedNumber) → Le (low a b) a × Le (low a b) b
low_lem a b = elim (Bool-cases (lt b a)) [
  | inl h ↦ rw h (tt, tt)
  | inr h ↦ rw h (Le_refl a, not_lt→Le a b h)
]

plus_top : (a : ExtendedNumber) → Le a plus_infinity
plus_top minus_infinity = tt
plus_top (finite _) = tt
plus_top plus_infinity = tt

high_lem : (a b : ExtendedNumber) → Le a (high a b) × Le b (high a b)
high_lem a b = elim (Bool-cases (lt a b)) [
  | inl h ↦ rw h (plus_top a, plus_top b)
  | inr h ↦ rw h (Le_refl a, not_lt→Le b a h)
]

-- The widening of an interval by another contains every number that either of them contains.
pub widen-Contains : (x y : Interval) (n : ℤ) → Contains x n ⊎ Contains y n → Contains (widen x y) n
unfolding widen
widen-Contains x y n c = elim (Bool-cases (is_bottom x)) [
  | inl b ↦ rw b (in_other x y n b c)
  | inr b ↦ elim (Bool-cases (is_bottom y)) [
    | inl d ↦ rw (b, d) (in_first x y n d c)
    | inr d ↦ rw (b, d) (wider c)
  ]
]
  where
    wide : Interval
    wide = record { lb = low x.lb y.lb; ub = high x.ub y.ub }

    wider : Contains x n ⊎ Contains y n → Contains wide n
    wider (inl c) = Contains-mono x wide n (low_lem x.lb y.lb).0 (high_lem x.ub y.ub).0 c
    wider (inr c) = Contains-mono y wide n (low_lem x.lb y.lb).1 (high_lem x.ub y.ub).1 c

-- How many more times an interval can widen: once from bottom, and once for each bound that is not
-- yet at its infinity.
abbrev pub lb_height : ExtendedNumber → ℕ
lb_height minus_infinity = 0
lb_height _ = 1

abbrev pub ub_height : ExtendedNumber → ℕ
ub_height plus_infinity = 0
ub_height _ = 1

abbrev pub height : Interval → ℕ
height i = if is_bottom i then 3 else lb_height i.lb + ub_height i.ub

above-lb_height : (a b : ExtendedNumber) → lt b a ≡ true → lb_height a ≡ 1
above-lb_height minus_infinity minus_infinity h = cc
above-lb_height minus_infinity (finite b) h = cc
above-lb_height minus_infinity plus_infinity h = cc
above-lb_height (finite a) b h = refl
above-lb_height plus_infinity b h = refl

below-ub_height : (a b : ExtendedNumber) → lt a b ≡ true → ub_height a ≡ 1
below-ub_height minus_infinity b h = refl
below-ub_height (finite a) b h = refl
below-ub_height plus_infinity b h = cc

-- A bound either stays, since the other operand is within it, or goes to infinity.
low-height :
    (a b : ExtendedNumber)
    → ((le a b ≡ true) × (lb_height (low a b) ≤ lb_height a)) ⊎ (lb_height (low a b) < lb_height a)
low-height a b = elim (Bool-cases (lt b a)) [
  | inl h ↦ inr (rw h (omega (arith, above-lb_height a b h)))
  | inr h ↦ inl (rw h (refl, omega arith))
]

high-height :
    (a b : ExtendedNumber)
    → ((le b a ≡ true) × (ub_height (high a b) ≤ ub_height a))
      ⊎ (ub_height (high a b) < ub_height a)
high-height a b = elim (Bool-cases (lt a b)) [
  | inl h ↦ inr (rw h (omega (arith, below-ub_height a b h)))
  | inr h ↦ inl (rw h (refl, omega arith))
]

heights_bounded : (l u : ExtendedNumber) → lb_height l + ub_height u < 3
heights_bounded minus_infinity minus_infinity = omega arith
heights_bounded minus_infinity (finite _) = omega arith
heights_bounded minus_infinity plus_infinity = omega arith
heights_bounded (finite _) minus_infinity = omega arith
heights_bounded (finite _) (finite _) = omega arith
heights_bounded (finite _) plus_infinity = omega arith
heights_bounded plus_infinity minus_infinity = omega arith
heights_bounded plus_infinity (finite _) = omega arith
heights_bounded plus_infinity plus_infinity = omega arith

-- A widening step either has nothing to add, because the interval includes the operand, or
-- lowers the height, a number that is 3 at bottom and at most 2 elsewhere.
pub widen-height : (x y : Interval) → (is_included_in y x ≡ true) ⊎ (height (widen x y) < height x)
unfolding widen is_included_in
widen-height x y = elim (Bool-cases (is_bottom y)) [
  | inl d ↦ inl (rw d)
  | inr d ↦ elim (Bool-cases (is_bottom x)) [
    | inl b ↦ inr (rw (b, d) (heights_bounded y.lb y.ub))
    | inr b ↦ elim (low-height x.lb y.lb) [
      | inl (stay, le) ↦ elim (high-height x.ub y.ub) [
        | inl (stay', le') ↦ inl (rw (b, d, stay, stay'))
        | inr less ↦ inr (rw (b, d, valid b) (omega arith))
      ]
      | inr less ↦ inr (
          rw (b, d, valid b)
            (elim (high-height x.ub y.ub) [
              | inl (stay', le') ↦ omega arith
              | inr less' ↦ omega arith
            ]))
    ]
  ]
]
  where
    valid : is_bottom x ≡ false → lt (high x.ub y.ub) (low x.lb y.lb) ≡ false
    valid b =
        let ordered = not_lt→Le x.lb x.ub b in
        let up = Le_trans x.lb x.ub (high x.ub y.ub) ordered (high_lem x.ub y.ub).0 in
        Le→not_lt (low x.lb y.lb) (high x.ub y.ub)
          (Le_trans (low x.lb y.lb) x.lb (high x.ub y.ub) (low_lem x.lb y.lb).0 up)

abbrev narrow_lb : ExtendedNumber → ExtendedNumber → ExtendedNumber
narrow_lb a b = if is_infinite a && is_finite b then b else a

narrow_lb_lem : (a b : ExtendedNumber) → Le a b → Le a (narrow_lb a b) × Le (narrow_lb a b) b
narrow_lb_lem minus_infinity minus_infinity h = (tt, tt)
narrow_lb_lem minus_infinity (finite b) h = (tt, omega arith)
narrow_lb_lem minus_infinity plus_infinity h = (tt, tt)
narrow_lb_lem (finite a) b h = (omega arith, h)
narrow_lb_lem plus_infinity minus_infinity h = absurd h
narrow_lb_lem plus_infinity (finite b) h = absurd h
narrow_lb_lem plus_infinity plus_infinity h = (tt, tt)

narrow_ub_lem : (a b : ExtendedNumber) → Le b a → Le (narrow_lb a b) a × Le b (narrow_lb a b)
narrow_ub_lem minus_infinity minus_infinity h = (tt, tt)
narrow_ub_lem minus_infinity (finite b) h = absurd h
narrow_ub_lem minus_infinity plus_infinity h = absurd h
narrow_ub_lem (finite a) b h = (omega arith, h)
narrow_ub_lem plus_infinity minus_infinity h = (tt, tt)
narrow_ub_lem plus_infinity (finite b) h = (tt, omega arith)
narrow_ub_lem plus_infinity plus_infinity h = (tt, tt)

-- The narrowing of an interval by one that it includes, by the test of inclusion, contains every
-- number of the latter and only numbers of the former.
pub narrow-Contains :
    (x y : Interval) (n : ℤ)
    → is_included_in y x ≡ true
    → (Contains y n → Contains (narrow x y) n) × (Contains (narrow x y) n → Contains x n)
unfolding narrow is_included_in
narrow-Contains x y n h = elim (Bool-cases (is_bottom y)) [
  | inl d ↦ (
    (λ c. absurd (bottom-Contains y n d c)),
    λ c. absurd (bottom-Contains bottom n refl (rw (or_true (is_bottom x) (is_bottom y) d) at c)),
  )
  | inr d ↦ elim (Bool-cases (is_bottom x)) [
    | inl b ↦ cc (rw (d, b) at h)
    | inr b ↦
        let both = and-true (le x.lb y.lb) (le y.ub x.ub) (rw (d, b) at h) in
        let l = narrow_lb_lem x.lb y.lb (le→Le x.lb y.lb both.0) in
        let u = narrow_ub_lem x.ub y.ub (le→Le y.ub x.ub both.1) in
        let mid : Interval = record { lb = narrow_lb x.lb y.lb; ub = narrow_lb x.ub y.ub } in
        rw (b, d) (Contains-mono y mid n l.1 u.1, Contains-mono mid x n l.0 u.0)
  ]
]
