-- ===== src/Crab/Interval/Member.antt =====
-- The numbers that an interval of src/crab/interval.rs stands for.
use prevail_rust.Base.Tests.{
  ◌≡◌, sym, ◌∙◌, Bool, true, false, ◌↔◌, arith, inl, inr, Bool-cases, and-true,
}
use prevail_rust.Base.Int.{ℤ}
use prevail_rust.Arith.Extended.{ExtendedNumber, finite, lt, le}
use prevail_rust.Arith.Extended.Order.{Le, le→Le, Le→le, Le_trans, Le→not_lt}
use prevail_rust.Crab.Interval.{Interval, new, is_bottom, contains}

-- The concretisation of an interval: the numbers between its bounds.
pub record Contains (i : Interval) (n : ℤ) : Type 0 where
  pub above : Le i.lb (finite n)
  pub below : Le (finite n) i.ub

pub Contains-not_bottom : (i : Interval) (n : ℤ) → Contains i n → is_bottom i ≡ false
Contains-not_bottom i n c = Le→not_lt i.lb i.ub (Le_trans i.lb (finite n) i.ub c.above c.below)

pub bottom-Contains : (i : Interval) (n : ℤ) → is_bottom i ≡ true → ¬ Contains i n
bottom-Contains i n h c = cc (Contains-not_bottom i n c)

clash : ◌≡◌ {A = Bool} true false → ⊥
clash h = cc

-- The interval that is made of two bounds contains exactly the numbers between the two, also
-- where the bounds are inverted and it is bottom.
pub new-Contains :
    (l u : ExtendedNumber) (n : ℤ) → Contains (new l u) n ↔ (Le l (finite n) × Le (finite n) u)
unfolding new
new-Contains l u n = elim (Bool-cases (lt u l)) [
  | inl h ↦ rw h (
    (λ c. absurd (omega (arith, c.above, c.below))),
    λ c. absurd (clash (sym h ∙ (Le→not_lt l u (Le_trans l (finite n) u c.0 c.1)))),
  )
  | inr h ↦ rw h ((λ c. (c.above, c.below)), λ c. record { above = c.0; below = c.1 })
]

-- The test of membership answers true exactly at the numbers that lie between the two bounds.
pub contains-Contains : (i : Interval) (n : ℤ) → (contains i n ≡ true) ↔ Contains i n
unfolding contains
contains-Contains i n = (sound, complete)
  where
    sound : contains i n ≡ true → Contains i n
    sound h = elim (Bool-cases (is_bottom i)) [
      | inl b ↦ cc (rw b at h)
      | inr b ↦
          let both = and-true (le i.lb (finite n)) (le (finite n) i.ub) (rw b at h) in
          record { above = le→Le i.lb (finite n) both.0; below = le→Le (finite n) i.ub both.1 }
    ]

    complete : Contains i n → contains i n ≡ true
    complete c =
        rw (Contains-not_bottom i n c, Le→le i.lb (finite n) c.above, Le→le (finite n) i.ub c.below)

-- Wider bounds contain more.
pub Contains-mono :
    (x y : Interval) (n : ℤ) → Le y.lb x.lb → Le x.ub y.ub → Contains x n → Contains y n
Contains-mono x y n l u c = record {
  above = Le_trans y.lb x.lb (finite n) l c.above;
  below = Le_trans (finite n) x.ub y.ub c.below u;
}
