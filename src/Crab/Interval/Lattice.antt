-- ===== src/Crab/Interval/Lattice.antt =====
-- The lattice operations of src/crab/interval.rs over the numbers that the intervals stand for.
use prevail_rust.Base.Tests.{◌≡◌, refl, true, ◌↔◌, ◌||◌, inl, inr, ◌⊎◌, Bool-cases, and-true}
use prevail_rust.Base.Int.{ℤ}
use prevail_rust.Arith.Extended
use prevail_rust.Arith.Extended.{
  ExtendedNumber, minus_infinity, finite, plus_infinity, lt, le, is_infinite, is_finite,
}
use prevail_rust.Arith.Extended.Order.{le→Le, min_lem, max_lem, le_min, max_le}
use prevail_rust.Crab.Interval.{Interval, bottom, is_bottom, is_included_in, join, meet}
use prevail_rust.Crab.Interval.Member.{
  Contains-mono, Contains, Contains-not_bottom, bottom-Contains, new-Contains,
}

-- Where the test of inclusion answers true, the second interval contains every number that the
-- first contains.
pub is_included_in-Contains :
    (x y : Interval) (n : ℤ) → is_included_in x y ≡ true → Contains x n → Contains y n
unfolding is_included_in
is_included_in-Contains x y n h c = elim (Bool-cases (is_bottom y)) [
  | inl b ↦ cc (rw (Contains-not_bottom x n c, b) at h)
  | inr b ↦
      let both = and-true (le y.lb x.lb) (le x.ub y.ub) (rw (Contains-not_bottom x n c, b) at h) in
      Contains-mono x y n (le→Le y.lb x.lb both.0) (le→Le x.ub y.ub both.1) c
]

module _ (x y : Interval) (n : ℤ) where
  abbrev hull : Interval
  hull = record { lb = Extended.min x.lb y.lb; ub = Extended.max x.ub y.ub }

  in_hull : Contains x n ⊎ Contains y n → Contains hull n
  in_hull (inl c) = Contains-mono x hull n (min_lem x.lb y.lb).0 (max_lem x.ub y.ub).0 c
  in_hull (inr c) = Contains-mono y hull n (min_lem x.lb y.lb).1 (max_lem x.ub y.ub).1 c

  -- What is in one of two intervals, of which one is bottom, is in the other.
  pub in_other : is_bottom x ≡ true → Contains x n ⊎ Contains y n → Contains y n
  in_other b (inl c) = absurd (bottom-Contains x n b c)
  in_other b (inr c) = c

  pub in_first : is_bottom y ≡ true → Contains x n ⊎ Contains y n → Contains x n
  in_first b (inl c) = c
  in_first b (inr c) = absurd (bottom-Contains y n b c)

  -- The join of two intervals contains every number that either of them contains.
  pub join-Contains : Contains x n ⊎ Contains y n → Contains (join x y) n
  unfolding join
  join-Contains c = elim (Bool-cases (is_bottom x)) [
    | inl b ↦ rw b (in_other b c)
    | inr b ↦ elim (Bool-cases (is_bottom y)) [
      | inl d ↦ rw (b, d) (in_first d c)
      | inr d ↦
          let h = in_hull c in rw (b, d) ((new-Contains hull.lb hull.ub n).1 (h.above, h.below))
    ]
  ]

  -- An interval that includes both operands, by the test of inclusion, contains every number of
  -- their join.
  pub join_least :
      (z : Interval)
      → is_included_in x z ≡ true
      → is_included_in y z ≡ true
      → Contains (join x y) n
      → Contains z n
  unfolding join is_included_in
  join_least z h k c = elim (Bool-cases (is_bottom x)) [
    | inl b ↦ is_included_in-Contains y z n k (rw b at c)
    | inr b ↦ elim (Bool-cases (is_bottom y)) [
      | inl d ↦ is_included_in-Contains x z n h (rw (b, d) at c)
      | inr d ↦ elim (Bool-cases (is_bottom z)) [
        | inl e ↦ cc (rw (b, e) at h)
        | inr e ↦
            let p = and-true (le z.lb x.lb) (le x.ub z.ub) (rw (b, e) at h) in
            let q = and-true (le z.lb y.lb) (le y.ub z.ub) (rw (d, e) at k) in
            let i = (new-Contains hull.lb hull.ub n).0 (rw (b, d) at c) in
            Contains-mono hull z n
              (le_min x.lb y.lb z.lb (le→Le z.lb x.lb p.0) (le→Le z.lb y.lb q.0))
              (max_le x.ub y.ub z.ub (le→Le x.ub z.ub p.1) (le→Le y.ub z.ub q.1))
              (record { above = i.0; below = i.1 })
      ]
    ]
  ]

  -- The meet of two intervals contains a number if and only if both of them contain it.
  pub meet-Contains : Contains (meet x y) n ↔ (Contains x n × Contains y n)
  unfolding meet
  meet-Contains = (apart, λ c. together c.0 c.1)
    where
      inner : ExtendedNumber × ExtendedNumber
      inner = (Extended.max x.lb y.lb, Extended.min x.ub y.ub)

      apart : Contains (meet x y) n → Contains x n × Contains y n
      apart c = elim (Bool-cases (is_bottom x || is_bottom y)) [
        | inl b ↦ absurd (bottom-Contains bottom n refl (rw b at c))
        | inr b ↦
            let i = (new-Contains inner.0 inner.1 n).0 (rw b at c) in
            let whole : Contains (record { lb = inner.0; ub = inner.1 }) n = record {
              above = i.0;
              below = i.1;
            } in
            let l = max_lem x.lb y.lb in
            let u = min_lem x.ub y.ub in
            (
              Contains-mono (record { lb = inner.0; ub = inner.1 }) x n l.0 u.0 whole,
              Contains-mono (record { lb = inner.0; ub = inner.1 }) y n l.1 u.1 whole,
            )
      ]

      together : Contains x n → Contains y n → Contains (meet x y) n
      together c d =
          rw (Contains-not_bottom x n c, Contains-not_bottom y n d)
            ((new-Contains inner.0 inner.1 n).1 (
              max_le x.lb y.lb (finite n) c.above d.above,
              le_min x.ub y.ub (finite n) c.below d.below,
            ))
