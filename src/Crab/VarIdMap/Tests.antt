-- ===== src/Crab/VarIdMap/Tests.antt =====
-- src/crab/var_id_map.rs: the theorems on a map of two variables.
use prevail_rust.Base.Tests.{ℕ, zero, suc, ◌≡◌, ◌≢◌, none, some, [], ◌∷◌, arith}
use prevail_rust.Base.Lists.{get_elem?}
use prevail_rust.Base.Maps.{get, nat_ord}
use prevail_rust.Crab.VarIdMap.{Variable, VarIdMap, find_id, rename}
use prevail_rust.Crab.VarIdMap.Bijection.{IsBijection, found_after, rename-IsBijection}

-- The variables 10 and 20 with the ids 1 and 2; the ids 0 and 3 are orphans.
abbrev two : VarIdMap
two = record {
  var_to_id = (10, 1) ∷ (20, 2) ∷ [];
  id_to_var = none ∷ some 10 ∷ some 20 ∷ none ∷ [];
}

two-IsBijection : IsBijection two
unfolding get
two-IsBijection = record { there = λ v id h. ground arith; back = back_at }
  where
    back_at :
        (v id : ℕ) → get_elem? two.id_to_var id ≡ some (some v) → get v two.var_to_id ≡ some id
    back_at v zero h = cc
    back_at v (suc zero) h = ground arith
    back_at v (suc (suc zero)) h = ground arith
    back_at v (suc (suc (suc zero))) h = cc
    back_at v (suc (suc (suc (suc id)))) h = cc

-- 20 takes the id of 10, and its own becomes an orphan.
rename-IsBijection_example :
    (m' : VarIdMap) × (rename ((10, 20) ∷ []) two ≡ some m')
    × IsBijection m'
    × ((v : Variable) → find_id v m' ≡ found_after ((10, 20) ∷ []) (λ u. find_id u two) v)
rename-IsBijection_example = rename-IsBijection ((10, 20) ∷ []) two two-IsBijection

third_free : (u : ℕ) → get_elem? two.id_to_var 3 ≢ some (some u)
third_free u h = cc
