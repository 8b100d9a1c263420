-- ===== src/Arith/Linear/Constraints.antt =====
-- src/arith/linear_constraint.rs: when a constraint holds of an assignment of the variables.
use prevail_rust.Base.Tests.{
  ◌≡◌, refl, ap, ◌∙◌, Bool, true, false, not, some, [], ◌∷◌, arith, Bool-cases, inl, inr,
  >>=-eq-some,
}
use prevail_rust.Base.Int.{
  ℤ, pos, pos_part, neg_part, ◌-ℤ◌, eq_of_parts, int_laws, eqb_ℤ, leb_ℤ, ltb_ℤ, neg_ℤ_parts,
  -ℤ_parts,
}
use prevail_rust.Arith.Number.{is_zero, is_negative, is_positive}
use prevail_rust.Arith.Linear.{
  Variable, LinearExpression, Terms, is_empty, ConstraintKind, equals_zero,
  less_than_or_equals_zero, less_than_zero, not_zero, LinearConstraint, holds_at, is_constant,
  is_tautology, is_contradiction, negate, negate_kind, negate_constraint, leq, lt, geq, gt, expr_eq,
  expr_neq, of_difference, subtract,
}
use prevail_rust.Arith.Linear.Terms.{weigh}
use prevail_rust.Arith.Linear.Values.{value, WellOrdered, negate-value, subtract-value}

module _ (at : Variable → ℤ) where
  -- The constraint is true of the assignment.
  abbrev pub holds : LinearConstraint → Bool
  holds c = holds_at c.kind (value at c.expression)

  negate_kind-holds :
      (kind : ConstraintKind) (e : LinearExpression) (n : LinearConstraint)
      → WellOrdered e
      → negate_kind kind e ≡ some n
      → holds n ≡ not (holds_at kind (value at e))
  unfolding negate_kind holds_at is_zero is_negative is_positive
  negate_kind-holds not_zero e n o h =
      let n_is : record { expression = e; kind = equals_zero } ≡ n = cc in
      rw (← n_is) (ground arith)
  negate_kind-holds equals_zero e n o h =
      let n_is : record { expression = e; kind = not_zero } ≡ n = cc in rw (← n_is) refl
  negate_kind-holds less_than_zero e n o h =
      let (r, made, done) = >>=-eq-some (negate e) _ h in
      let n_is : record { expression = r; kind = less_than_or_equals_zero } ≡ n = cc in
      let (_, v) = negate-value at e r o made in
      rw (← n_is, v) (ground (arith, neg_ℤ_parts (value at e)))
  negate_kind-holds less_than_or_equals_zero e n o h =
      let (r, made, done) = >>=-eq-some (negate e) _ h in
      let n_is : record { expression = r; kind = less_than_zero } ≡ n = cc in
      let (_, v) = negate-value at e r o made in
      rw (← n_is, v) (ground (arith, neg_ℤ_parts (value at e)))

  -- If the negation of a constraint whose terms are in ascending order does not overflow, then
  -- it holds at an assignment of the variables exactly where the constraint does not.
  pub negate_constraint-holds :
      (c n : LinearConstraint)
      → WellOrdered c.expression
      → negate_constraint c ≡ some n
      → holds n ≡ not (holds c)
  unfolding negate_constraint
  negate_constraint-holds c n o h = negate_kind-holds c.kind c.expression n o h

  weigh-empty : (terms : Terms) → is_empty terms ≡ true → weigh at terms ≡ pos 0
  weigh-empty [] h = refl
  weigh-empty (t ∷ terms) h = cc

  constant-value : (e : LinearExpression) → is_constant e ≡ true → value at e ≡ e.constant_term
  unfolding is_constant
  constant-value e h =
      let w = weigh-empty e.variable_terms h in
      eq_of_parts _ _ (omega (int_laws, ap pos_part w, ap neg_part w))

  -- A tautology holds at every assignment of the variables and a contradiction at none; for a
  -- constant expression the two tests are whether the constraint holds and whether it does not.
  pub is_tautology-holds :
      (c : LinearConstraint)
      → (is_tautology c ≡ true → holds c ≡ true)
        × (is_contradiction c ≡ true → holds c ≡ false)
        × (is_constant c.expression ≡ true
            → (is_tautology c ≡ holds c) × (is_contradiction c ≡ not (holds c)))
  unfolding is_tautology is_contradiction
  is_tautology-holds c = elim (Bool-cases (is_constant c.expression)) [
    | inl k ↦
        let v = constant-value c.expression k in
        rw (k, v) (λ h. h, λ h. ground arith, λ _. (refl, refl))
    | inr k ↦ rw k (λ h. cc, λ h. cc, λ h. cc)
  ]

  of_difference-holds :
      (kind : ConstraintKind) (a b : LinearExpression) (c : LinearConstraint)
      → WellOrdered a
      → WellOrdered b
      → of_difference kind a b ≡ some c
      → holds c ≡ holds_at kind (value at a -ℤ value at b)
  of_difference-holds kind a b c oa ob h =
      let (d, made, done) = >>=-eq-some (subtract a b) _ h in
      let c_is : record { expression = d; kind = kind } ≡ c = cc in
      let (_, v) = subtract-value at a b d oa ob made in rw (← c_is, v) refl

  -- For two expressions whose terms are in ascending order: a constraint that leq, lt, geq, gt,
  -- expr_eq or expr_neq builds of them without an overflow holds at an assignment of the
  -- variables exactly if the two values compare in that way.
  pub comparison-holds :
      (a b : LinearExpression) (c : LinearConstraint)
      → WellOrdered a
      → WellOrdered b
      → (leq a b ≡ some c → holds c ≡ leb_ℤ (value at a) (value at b))
        × (lt a b ≡ some c → holds c ≡ ltb_ℤ (value at a) (value at b))
        × (geq a b ≡ some c → holds c ≡ leb_ℤ (value at b) (value at a))
        × (gt a b ≡ some c → holds c ≡ ltb_ℤ (value at b) (value at a))
        × (expr_eq a b ≡ some c → holds c ≡ eqb_ℤ (value at a) (value at b))
        × (expr_neq a b ≡ some c → holds c ≡ not (eqb_ℤ (value at a) (value at b)))
  unfolding leq lt geq gt expr_eq expr_neq holds_at is_zero is_negative is_positive
  comparison-holds a b c oa ob = (
    λ h.
        of_difference-holds less_than_or_equals_zero a b c oa ob h
        ∙ at_most (value at a) (value at b),
    λ h. of_difference-holds less_than_zero a b c oa ob h ∙ below (value at a) (value at b),
    λ h.
        of_difference-holds less_than_or_equals_zero b a c ob oa h
        ∙ at_most (value at b) (value at a),
    λ h. of_difference-holds less_than_zero b a c ob oa h ∙ below (value at b) (value at a),
    λ h. of_difference-holds equals_zero a b c oa ob h ∙ equal (value at a) (value at b),
    λ h. of_difference-holds not_zero a b c oa ob h ∙ ap not (equal (value at a) (value at b)),
  )
    where
      at_most : (x y : ℤ) → not (ltb_ℤ (pos 0) (x -ℤ y)) ≡ leb_ℤ x y
      at_most x y = ground (arith, -ℤ_parts x y)

      below : (x y : ℤ) → ltb_ℤ (x -ℤ y) (pos 0) ≡ ltb_ℤ x y
      below x y = ground (arith, -ℤ_parts x y)

      equal : (x y : ℤ) → eqb_ℤ (x -ℤ y) (pos 0) ≡ eqb_ℤ x y
      equal x y = ground (arith, -ℤ_parts x y)
