-- ===== src/Crab/Dsu/Hang.antt =====
-- One root of a disjoint-set forest (src/crab/dsu.rs) becomes the child of another.
use mathlib.Core.Path.{subst}
use prevail_rust.Base.Tests.{
  ℕ, ◌≤◌, ◌<◌, ◌≡◌, ◌≢◌, refl, sym, ap, ◌∙◌, some, List, arith, ◌==◌, ==_iff, if◌then◌else◌,
  Bool-cases, inl, inr,
}
use prevail_rust.Base.Lists.{
  length, get_elem?, get_or, set, get_elem?-set, get_elem?-lt, length-set,
}
use prevail_rust.Crab.Dsu.{DisjointSetUnion}
use prevail_rust.Crab.Dsu.Roots.{Root, top, up, IsForest, some-eq}

-- Hanging the root `a` under another root `b`.
module _ (p : List ℕ) (a b : ℕ) (ra : get_elem? p a ≡ some a) (rb : get_elem? p b ≡ some b)
    (n : b ≢ a) where
  abbrev hung : List ℕ
  hung = set p a b

  read : (y : ℕ) → get_elem? hung y ≡ (if a == y then some b else get_elem? p y)
  read y = get_elem?-set p a y b (get_elem?-lt p a ra)

  b_root : get_elem? hung b ≡ some b
  b_root = ground (arith, read b, rb)

  -- Every element of a's class gets b, and every other keeps its representative.
  pub hang-Root : {y q : ℕ} → Root p y q → Root hung y (if q == a then b else q)
  hang-Root (top y e) = elim (Bool-cases (y == a)) [
    | inl same ↦
        let place = (==_iff y a).0 same in
        let here : get_elem? hung y ≡ some b = ground (arith, read y, place) in
        let apart : b ≢ y = λ h. n (h ∙ place) in rw same (up y b b here apart (top b b_root))
    | inr other ↦ rw other (top y (ground (arith, read y, e)))
  ]
  hang-Root (up y z q e m u) =
      let not_root : y ≢ a = λ h. m (some-eq (sym e ∙ ap (get_elem? p) h ∙ ra ∙ ap some (sym h))) in
      up y z (if q == a then b else q) (ground (arith, read y, e, not_root)) m (hang-Root u)

-- The forest after hanging a under b, with ranks that rise only at b and put it above a.
module _ (s : DisjointSetUnion) (a b : ℕ) (ranks : List ℕ) (v : IsForest s)
    (ra : get_elem? s.parent a ≡ some a) (rb : get_elem? s.parent b ≡ some b) (n : b ≢ a)
    (size : length ranks ≡ length s.rank)
    (kept : (i : ℕ) → i ≢ b → get_or ranks i 0 ≡ get_or s.rank i 0)
    (grown : get_or s.rank b 0 ≤ get_or ranks b 0)
    (above : get_or s.rank a 0 < get_or ranks b 0) where
  abbrev linked : DisjointSetUnion
  linked = record { parent = set s.parent a b; rank = ranks }

  at : (y : ℕ) → get_elem? linked.parent y ≡ (if a == y then some b else get_elem? s.parent y)
  at y = get_elem?-set s.parent a y b (get_elem?-lt s.parent a ra)

  rises : (i : ℕ) → get_or s.rank i 0 ≤ get_or ranks i 0
  rises i = elim (Bool-cases (i == b)) [
    | inl same ↦ rw ((==_iff i b).0 same) grown
    | inr other ↦ omega (arith, kept i (ground arith))
  ]

  pub linked-IsForest : IsForest linked
  linked-IsForest = record {
    ranked = size ∙ v.ranked ∙ sym (length-set s.parent a b);
    closed = λ y q h. subst (λ (k : ℕ). q < k) (sym (length-set s.parent a b)) (closed y q h);
    climbs = climbs;
  }
    where
      closed : (y q : ℕ) → get_elem? linked.parent y ≡ some q → q < length s.parent
      closed y q h = elim (Bool-cases (a == y)) [
        | inl same ↦
            let eq : b ≡ q = some-eq (sym (at y ∙ rw same refl) ∙ h) in
            rw (← eq) (get_elem?-lt s.parent b rb)
        | inr other ↦ v.closed y q (sym (at y ∙ rw other refl) ∙ h)
      ]

      climbs :
          (y q : ℕ)
          → get_elem? linked.parent y ≡ some q
          → q ≢ y
          → get_or ranks y 0 < get_or ranks q 0
      climbs y q h m = elim (Bool-cases (a == y)) [
        | inl same ↦
            let eq : b ≡ q = some-eq (sym (at y ∙ rw same refl) ∙ h) in
            let place : a ≡ y = (==_iff a y).0 same in
            let still = kept a (λ e. n (sym e)) in rw (← place, ← eq) (omega (arith, above, still))
        | inr other ↦
            let e = sym (at y ∙ rw other refl) ∙ h in
            let inner : y ≢ b =
              λ w. m (some-eq (sym e ∙ ap (get_elem? s.parent) w ∙ rb ∙ ap some (sym w))) in
            omega (arith, v.climbs y q e m, kept y inner, rises q)
      ]
