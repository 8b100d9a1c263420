-- ===== src/Arith/Linear/Total.antt =====
-- src/arith/linear_expression.rs: expressions whose operations do not overflow.
use prevail_rust.Base.Tests.{◌-◌, ◌^◌, ◌≡◌, refl, Option, some, [], ◌∷◌, arith}
use prevail_rust.Base.Int.{ℤ, pos, negsuc, ◌+ℤ◌, ◌-ℤ◌, ◌≤ℤ◌, neg_ℤ, +ℤ_parts, -ℤ_parts, neg_ℤ_parts}
use prevail_rust.Base.Int.Products.{*ℤ_minus_one}
use prevail_rust.Base.Maps.{get, nat_ord}
use prevail_rust.Arith.Number.{Number, checked_add, checked_sub, checked_mul}
use prevail_rust.Arith.Linear.{
  Variable, Terms, LinearExpression, coefficient, coefficient_of, update, combine, scaled, multiply,
  plus, subtract, negate,
}

-- Half the range of an `i128`.
abbrev pub IsSmall : ℤ → Type 0
IsSmall z = (negsuc (2 ^ 126 - 1) ≤ℤ z) × (z ≤ℤ pos (2 ^ 126 - 1))

abbrev pub AllSmall : Terms → Type 0
AllSmall [] = Unit {0}
AllSmall ((v, c) ∷ terms) = IsSmall c × AllSmall terms

abbrev pub SmallExpression : LinearExpression → Type 0
SmallExpression e = IsSmall e.constant_term × AllSmall e.variable_terms

checked_add_total : (a b : ℤ) → IsSmall a → IsSmall b → (r : ℤ) × (checked_add a b ≡ some r)
unfolding checked_add
checked_add_total a b ha hb = (a +ℤ b, ground (arith, +ℤ_parts a b))

checked_sub_total : (a b : ℤ) → IsSmall a → IsSmall b → (r : ℤ) × (checked_sub a b ≡ some r)
unfolding checked_sub
checked_sub_total a b ha hb = (a -ℤ b, ground (arith, -ℤ_parts a b))

checked_neg_total : (a : ℤ) → IsSmall a → (r : ℤ) × (checked_mul a (negsuc 0) ≡ some r)
unfolding checked_mul
checked_neg_total a ha = (neg_ℤ a, rw (*ℤ_minus_one a) (ground (arith, neg_ℤ_parts a)))

coefficient-IsSmall :
    (v : Variable) (terms : Terms) → AllSmall terms → IsSmall (coefficient v terms)
unfolding get
coefficient-IsSmall v [] h = (omega arith, omega arith)
coefficient-IsSmall v ((u, c) ∷ terms) h = ground (arith, coefficient-IsSmall v terms)

combine_total :
    (op : Number → Number → Option Number)
    → ((a b : ℤ) → IsSmall a → IsSmall b → (r : ℤ) × (op a b ≡ some r))
    → (self : LinearExpression) (terms other : Terms) → AllSmall self.variable_terms
    → AllSmall other
    → (r : Terms) × (combine op self terms other ≡ some r)
unfolding combine coefficient_of
combine_total op total self terms [] hs ho = (terms, refl)
combine_total op total self terms ((v, c) ∷ other) hs ho =
    let (k, made) =
      total (coefficient v self.variable_terms) c (coefficient-IsSmall v self.variable_terms hs)
        ho.0 in
    let (r, loop) = combine_total op total self (update v k terms) other hs ho.1 in
    (r, rw made loop)

scaled_total : (terms : Terms) → AllSmall terms → (r : Terms) × (scaled (negsuc 0) terms ≡ some r)
unfolding scaled
scaled_total [] h = ([], refl)
scaled_total ((v, c) ∷ terms) h =
    let (d, made) = checked_neg_total c h.0 in
    let (r, loop) = scaled_total terms h.1 in ((v, d) ∷ r, rw (made, loop) refl)

-- For two expressions whose coefficients and constants lie between -2^126 and 2^126 - 1, the
-- sum, the difference and the negation of the first do not panic.
pub operations_total :
    (a b : LinearExpression)
    → SmallExpression a
    → SmallExpression b
    → ((r : LinearExpression) × (plus a b ≡ some r))
      × ((r : LinearExpression) × (subtract a b ≡ some r))
      × ((r : LinearExpression) × (negate a ≡ some r))
unfolding plus subtract negate multiply
operations_total a b ha hb =
    let (s, sum) =
      combine_total checked_add checked_add_total a a.variable_terms b.variable_terms ha.1 hb.1 in
    let (d, difference) =
      combine_total checked_sub checked_sub_total a a.variable_terms b.variable_terms ha.1 hb.1 in
    let (n, negated) = scaled_total a.variable_terms ha.1 in
    let (cs, sum') = checked_add_total a.constant_term b.constant_term ha.0 hb.0 in
    let (cd, difference') = checked_sub_total a.constant_term b.constant_term ha.0 hb.0 in
    let (cn, negated') = checked_neg_total a.constant_term ha.0 in
    (
      (record { constant_term = cs; variable_terms = s }, rw (sum, sum') refl),
      (record { constant_term = cd; variable_terms = d }, rw (difference, difference') refl),
      (record { constant_term = cn; variable_terms = n }, rw (negated, negated') refl),
    )
