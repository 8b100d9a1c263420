-- ===== src/Crab/Dsu/Union.antt =====
-- `union` of src/crab/dsu.rs over the representatives of the forest.
use mathlib.Core.Path.{subst}
use prevail_rust.Base.Tests.{
  ℕ, zero, suc, ◌+◌, ◌<◌, ◌≡◌, ◌≢◌, refl, sym, ◌∙◌, some, List, arith, ltb, ◌==◌, if◌then◌else◌,
  Bool-cases, inl, inr, ◌⊎◌, ◌||◌, [], ◌∷◌, ltb→lt, ltb-false→le,
}
use prevail_rust.Base.Lists.{
  get_elem?, get_or, set, get_elem?-some, get_elem?-lt, length-set, get_or-set,
}
use prevail_rust.Crab.Dsu.{DisjointSetUnion, len, link, union}
use prevail_rust.Crab.Dsu.Roots.{Root, IsForest, root_unique, root_self}
use prevail_rust.Crab.Dsu.Hang.{hang-Root, linked-IsForest}
use prevail_rust.Crab.Dsu.Find.{find-Found, find_const-Root}

-- What `union` promises: the classes of x and y become one, represented by r, and every other element
-- keeps its representative.
pub record Merged (s : DisjointSetUnion) (x y : ℕ) (s' : DisjointSetUnion) (r : ℕ) : Type 0 where
  pub rx : ℕ
  pub ry : ℕ
  pub root_x : Root s.parent x rx
  pub root_y : Root s.parent y ry
  pub chosen : (r ≡ rx) ⊎ (r ≡ ry)
  pub forest : IsForest s'
  pub elements : len s' ≡ len s
  pub classes :
      (z q : ℕ) → Root s.parent z q → Root s'.parent z (if q == rx || q == ry then r else q)

-- The outcome of `link` at two different roots.
pub record Linked (s : DisjointSetUnion) (rx ry : ℕ) (s' : DisjointSetUnion) (r : ℕ) : Type 0 where
  pub chosen : (r ≡ rx) ⊎ (r ≡ ry)
  pub forest : IsForest s'
  pub elements : len s' ≡ len s
  pub classes :
      (z q : ℕ) → Root s.parent z q → Root s'.parent z (if q == rx || q == ry then r else q)

get_elem?-get_or : (l : List ℕ) (i : ℕ) {k : ℕ} → get_elem? l i ≡ some k → get_or l i 0 ≡ k
get_elem?-get_or [] i h = cc
get_elem?-get_or (x ∷ l) zero h = cc
get_elem?-get_or (x ∷ l) (suc i) h = get_elem?-get_or l i h

into_second : (q a b : ℕ) → (if q == a then b else q) ≡ (if q == a || q == b then b else q)
into_second q a b = ground arith

into_first : (q a b : ℕ) → (if q == b then a else q) ≡ (if q == a || q == b then a else q)
into_first q a b = ground arith

link-Linked :
    (s : DisjointSetUnion) (rx ry : ℕ)
    → IsForest s
    → get_elem? s.parent rx ≡ some rx
    → get_elem? s.parent ry ≡ some ry
    → ry ≢ rx
    → (s' : DisjointSetUnion) × (r : ℕ) × (link s rx ry ≡ some (s', r)) × Linked s rx ry s' r
unfolding link
link-Linked s rx ry v ex ey n =
    let (kx, ekx) =
      get_elem?-some s.rank rx (omega (arith, v.ranked, get_elem?-lt s.parent rx ex)) in
    let (ky, eky) =
      get_elem?-some s.rank ry (omega (arith, v.ranked, get_elem?-lt s.parent ry ey)) in
    let rank_x = get_elem?-get_or s.rank rx ekx in
    let rank_y = get_elem?-get_or s.rank ry eky in
    let n' : rx ≢ ry = λ e. n (sym e) in
    elim (Bool-cases (ltb kx ky)) [
      | inl less ↦ (
        record s { parent = set s.parent rx ry },
        ry,
        rw (ekx, eky, less),
        record {
          chosen = inr refl;
          forest =
              linked-IsForest s rx ry s.rank v ex ey n refl (λ i h. refl) (omega arith)
                (omega (arith, ltb→lt kx ky less));
          elements = length-set s.parent rx ry;
          classes = λ z q u.
              subst (Root (set s.parent rx ry) z) (into_second q rx ry)
                (hang-Root s.parent rx ry ex ey n u);
        },
      )
      | inr at_most ↦ elim (Bool-cases (ltb ky kx)) [
        | inl more ↦ (
          record s { parent = set s.parent ry rx },
          rx,
          rw (ekx, eky, at_most, more),
          record {
            chosen = inl refl;
            forest =
                linked-IsForest s ry rx s.rank v ey ex n' refl (λ i h. refl) (omega arith)
                  (omega (arith, ltb→lt ky kx more));
            elements = length-set s.parent ry rx;
            classes = λ z q u.
                subst (Root (set s.parent ry rx) z) (into_first q rx ry)
                  (hang-Root s.parent ry rx ey ex n' u);
          },
        )
        | inr equal ↦
            let raised = get_or-set s.rank rx rx (kx + 1) 0 (get_elem?-lt s.rank rx ekx) in
            let top : get_or (set s.rank rx (kx + 1)) rx 0 ≡ kx + 1 = ground (arith, raised) in
            (
              record s { parent = set s.parent ry rx; rank = set s.rank rx (kx + 1) },
              rx,
              rw (ekx, eky, at_most, equal),
              record {
                chosen = inl refl;
                forest =
                    linked-IsForest s ry rx (set s.rank rx (kx + 1)) v ey ex n'
                      (length-set s.rank rx (kx + 1))
                      (λ i h.
                        ground
                          (arith, get_or-set s.rank rx i (kx + 1) 0 (get_elem?-lt s.rank rx ekx)))
                      (omega arith)
                      (omega (arith, ltb-false→le kx ky at_most, ltb-false→le ky kx equal));
                elements = length-set s.parent ry rx;
                classes = λ z q u.
                    subst (Root (set s.parent ry rx) z) (into_first q rx ry)
                      (hang-Root s.parent ry rx ey ex n' u);
              },
            )
      ]
    ]

-- On a well-formed forest, union of two elements does not panic. The result is a well-formed
-- forest over the same elements, the answer is the representative of one of the two, every
-- element that one of their two representatives represented is represented by the answer, and
-- every other element keeps its representative.
pub union-Merged :
    (s : DisjointSetUnion) (x y : ℕ)
    → IsForest s
    → x < len s
    → y < len s
    → (s' : DisjointSetUnion) × (r : ℕ) × (union s x y ≡ some (s', r)) × Merged s x y s' r
unfolding union
union-Merged s x y v h k =
    let (s', rx, ran_x, found_x) = find-Found s x v h in
    let (s'', ry, ran_y, found_y) = find-Found s' y found_x.forest (rw found_x.elements k) in
    let (r, _, u) = find_const-Root s y v k in
    let root_y =
      subst (Root s.parent y) (root_unique s'.parent (found_x.same y r u) found_y.root) u in
    let moved : (z q : ℕ) → Root s.parent z q → Root s''.parent z q =
      λ z q w. found_y.same z q (found_x.same z q w) in
    let size = found_y.elements ∙ found_x.elements in
    elim (Bool-cases (rx == ry)) [
      | inl same ↦ (
        s'',
        rx,
        rw (ran_x, ran_y, same),
        record {
          rx = rx;
          ry = ry;
          root_x = found_x.root;
          root_y = root_y;
          chosen = inl refl;
          forest = found_y.forest;
          elements = size;
          classes = λ z q w. subst (Root s''.parent z) (ground (arith, same)) (moved z q w);
        },
      )
      | inr apart ↦
          let n : ry ≢ rx = ground arith in
          let top_x = root_self s''.parent (moved x rx found_x.root) in
          let top_y = root_self s''.parent (moved y ry root_y) in
          let (t, m, ran, linked) = link-Linked s'' rx ry found_y.forest top_x top_y n in
          (
            t,
            m,
            rw (ran_x, ran_y, apart) ran,
            record {
              rx = rx;
              ry = ry;
              root_x = found_x.root;
              root_y = root_y;
              chosen = linked.chosen;
              forest = linked.forest;
              elements = linked.elements ∙ size;
              classes = λ z q w. linked.classes z q (moved z q w);
            },
          )
    ]
