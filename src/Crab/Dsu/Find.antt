-- ===== src/Crab/Dsu/Find.antt =====
-- `find`, `find_const` and `same_set` of src/crab/dsu.rs over the representatives of the forest.
use prevail_rust.Base.Tests.{
  ℕ, zero, suc, ◌+◌, ◌<◌, ◌≡◌, ◌≢◌, refl, sym, ap, ◌∙◌, some, Bool, true, false, arith, ◌==◌,
  ==_iff, Bool-cases, inl, inr,
}
use prevail_rust.Base.Lists.{get_or, set, get_elem?-some, length-set}
use prevail_rust.Crab.Dsu.{
  DisjointSetUnion, len, max_rank, find_fuel, find, find_const_fuel, find_const, same_set,
}
use prevail_rust.Crab.Dsu.Roots.{
  Root, top, up, IsForest, SameRoots, rank_bound, compress-SameRoots, compress-IsForest,
  root_unique,
}

-- What `find` promises: r represents x, and the new forest has the same elements, ranks and
-- representatives.
pub record Found (s : DisjointSetUnion) (x : ℕ) (s' : DisjointSetUnion) (r : ℕ) : Type 0 where
  pub root : Root s.parent x r
  pub forest : IsForest s'
  pub same : SameRoots s.parent s'.parent
  pub elements : len s' ≡ len s

not_equal : (p x : ℕ) → (p == x) ≡ false → p ≢ x
not_equal p x h = ground arith

find_fuel-Found :
    (fuel : ℕ) (s : DisjointSetUnion) (x : ℕ)
    → IsForest s
    → x < len s
    → max_rank s.rank < fuel + get_or s.rank x 0
    → (s' : DisjointSetUnion) × (r : ℕ) × (find_fuel fuel s x ≡ some (s', r)) × Found s x s' r
unfolding find_fuel
find_fuel-Found zero s x v h f = absurd (omega (arith, rank_bound s.rank x))
find_fuel-Found (suc fuel) s x v h f =
    let (p, e) = get_elem?-some s.parent x h in
    elim (Bool-cases (p == x)) [
      | inl stop ↦
          let here = (==_iff p x).0 stop in
          (
            s,
            x,
            rw (e, stop),
            record {
              root = top x (e ∙ ap some here);
              forest = v;
              same = λ y q u. u;
              elements = refl;
            },
          )
      | inr climb ↦
          let n = not_equal p x climb in
          let (s', r, ran, found) =
            find_fuel-Found fuel s p v (v.closed x p e) (omega (arith, v.climbs x p e n)) in
          let whole = up x p r e n found.root in
          let moved = found.same x r whole in
          (
            record s' { parent = set s'.parent x r },
            r,
            rw (e, climb, ran),
            record {
              root = whole;
              forest = compress-IsForest s' found.forest x r moved;
              same = λ y q u. compress-SameRoots s' found.forest x r moved y q (found.same y q u);
              elements = length-set s'.parent x r ∙ found.elements;
            },
          )
    ]

-- On a well-formed forest, find of an element does not panic. It returns the element's
-- representative, and the compressed forest is a well-formed forest over as many elements in
-- which every element keeps its representative.
pub find-Found :
    (s : DisjointSetUnion) (x : ℕ)
    → IsForest s
    → x < len s
    → (s' : DisjointSetUnion) × (r : ℕ) × (find s x ≡ some (s', r)) × Found s x s' r
unfolding find
find-Found s x v h = find_fuel-Found (suc (max_rank s.rank)) s x v h (omega arith)

find_const_fuel-Root :
    (fuel : ℕ) (s : DisjointSetUnion) (x : ℕ)
    → IsForest s
    → x < len s
    → max_rank s.rank < fuel + get_or s.rank x 0
    → (r : ℕ) × (find_const_fuel fuel s x ≡ some r) × Root s.parent x r
unfolding find_const_fuel
find_const_fuel-Root zero s x v h f = absurd (omega (arith, rank_bound s.rank x))
find_const_fuel-Root (suc fuel) s x v h f =
    let (p, e) = get_elem?-some s.parent x h in
    elim (Bool-cases (p == x)) [
      | inl stop ↦ (x, rw (e, stop), top x (e ∙ ap some ((==_iff p x).0 stop)))
      | inr climb ↦
          let n = not_equal p x climb in
          let (r, ran, root) =
            find_const_fuel-Root fuel s p v (v.closed x p e) (omega (arith, v.climbs x p e n)) in
          (r, rw (e, climb) ran, up x p r e n root)
    ]

-- On a well-formed forest, find_const of an element does not panic and returns the element's
-- representative.
pub find_const-Root :
    (s : DisjointSetUnion) (x : ℕ)
    → IsForest s
    → x < len s
    → (r : ℕ) × (find_const s x ≡ some r) × Root s.parent x r
unfolding find_const
find_const-Root s x v h = find_const_fuel-Root (suc (max_rank s.rank)) s x v h (omega arith)

-- On a well-formed forest, same_set of two elements does not panic, and it answers true exactly
-- when the two have a common representative.
pub same_set-Root :
    (s : DisjointSetUnion) (x y : ℕ)
    → IsForest s
    → x < len s
    → y < len s
    → (b : Bool) × (same_set s x y ≡ some b)
      × ((b ≡ true → (r : ℕ) × Root s.parent x r × Root s.parent y r)
          × ((r : ℕ) → Root s.parent x r → Root s.parent y r → b ≡ true))
unfolding same_set
same_set-Root s x y v h k =
    let (rx, ex, tx) = find_const-Root s x v h in
    let (ry, ey, ty) = find_const-Root s y v k in
    (
      rx == ry,
      rw (ex, ey),
      (
        (λ e. let same = (==_iff rx ry).0 e in (ry, rw (← same) tx, ty)),
        λ r u w. (==_iff rx ry).1 (root_unique s.parent tx u ∙ sym (root_unique s.parent ty w)),
      ),
    )
