-- ===== src/Crab/Dsu/Tests.antt =====
-- The laws of src/crab/dsu.rs at a forest of three elements, in which 0 and 1 are one class.
use prevail_rust.Base.Tests.{ℕ, suc, zero, ◌≡◌, ◌≢◌, ◌<◌, refl, some, [], ◌∷◌, arith}
use prevail_rust.Base.Lists.{get_elem?, get_or}
use prevail_rust.Crab.Dsu.{DisjointSetUnion, find, union}
use prevail_rust.Crab.Dsu.Roots.{IsForest}
use prevail_rust.Crab.Dsu.Find.{Found, find-Found}
use prevail_rust.Crab.Dsu.Union.{Merged, union-Merged}

abbrev pair_and_one : DisjointSetUnion
pair_and_one = record { parent = 1 ∷ 1 ∷ 2 ∷ []; rank = 0 ∷ 1 ∷ 0 ∷ [] }

pair_and_one-IsForest : IsForest pair_and_one
pair_and_one-IsForest = record { ranked = refl; closed = closed; climbs = climbs }
  where
    closed : (x q : ℕ) → get_elem? pair_and_one.parent x ≡ some q → q < 3
    closed zero q e = ground arith
    closed (suc zero) q e = ground arith
    closed (suc (suc zero)) q e = ground arith
    closed (suc (suc (suc x))) q e = cc

    climbs :
        (x q : ℕ)
        → get_elem? pair_and_one.parent x ≡ some q
        → q ≢ x
        → get_or pair_and_one.rank x 0 < get_or pair_and_one.rank q 0
    climbs zero zero e n = cc
    climbs zero (suc zero) e n = omega arith
    climbs zero (suc (suc q)) e n = ground arith
    climbs (suc zero) q e n = ground arith
    climbs (suc (suc zero)) q e n = ground arith
    climbs (suc (suc (suc x))) q e n = cc

find-Found_example :
    (s' : DisjointSetUnion) × (r : ℕ) × (find pair_and_one 0 ≡ some (s', r))
    × Found pair_and_one 0 s' r
find-Found_example = find-Found pair_and_one 0 pair_and_one-IsForest (omega arith)

union-Merged_example :
    (s' : DisjointSetUnion) × (r : ℕ) × (union pair_and_one 0 2 ≡ some (s', r))
    × Merged pair_and_one 0 2 s' r
union-Merged_example =
    union-Merged pair_and_one 0 2 pair_and_one-IsForest (omega arith) (omega arith)
