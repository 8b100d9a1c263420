-- ===== src/Crab/VarIdMap.antt =====
-- src/crab/var_id_map.rs: the type variables and their elements in the disjoint sets, in both
-- directions. An id whose variable was taken away is an orphan; an index out of range is a panic.
use prevail_rust.Base.Tests.{
  ℕ, zero, suc, ◌-◌, Bool, true, false, Option, none, some, if◌then◌else◌, ◌>>=◌, List, [], ◌∷◌,
  ◌++◌, ltb,
}
use prevail_rust.Base.Lists.{length, get_elem?, set, replicate}
use prevail_rust.Base.Maps.{Map, get, insert, remove, nat_ord}
pub mod Bijection
pub mod Detach
mod Tests

abbrev pub Variable : Type 0
Variable = ℕ

pub record VarIdMap : Type 0 where
  pub var_to_id : Map Variable ℕ
  pub id_to_var : List (Option Variable)

unfoldable pub new : ℕ → VarIdMap
new initial_capacity = record { var_to_id = []; id_to_var = replicate initial_capacity none }

unfoldable pub find_id : Variable → VarIdMap → Option ℕ
find_id v m = get v m.var_to_id

-- The loop of `insert` pushes as many orphans as are missing.
abbrev pub grown : ℕ → List (Option Variable) → List (Option Variable)
grown id ids = ids ++ replicate (suc id - length ids) none

unfoldable pub insert_var : Variable → ℕ → VarIdMap → VarIdMap
insert_var v id m = record {
  var_to_id = insert v id m.var_to_id;
  id_to_var = set (grown id m.id_to_var) id (some v);
}

-- An assignment by index, which panics out of range.
abbrev pub assign : ℕ → Option Variable → List (Option Variable) → Option (List (Option Variable))
assign id v ids = if ltb id (length ids) then some (set ids id v) else none

abbrev pub orphan_at : Option ℕ → VarIdMap → Option VarIdMap
orphan_at none m = some m
orphan_at (some old_id) m =
    assign old_id none m.id_to_var >>= λ ids. some (record m { id_to_var = ids })

unfoldable pub orphan_var : Variable → VarIdMap → Option VarIdMap
orphan_var v m = orphan_at (get v m.var_to_id) m

abbrev is_some {ℓ} : {A : Type ℓ} → Option A → Bool
is_some none = false
is_some (some a) = true

unfoldable pub contains : Variable → VarIdMap → Bool
contains v m = is_some (get v m.var_to_id)

unfoldable pub id_capacity : VarIdMap → ℕ
id_capacity m = length m.id_to_var

abbrev is_live : Option (Option Variable) → Bool
is_live none = false
is_live (some v) = is_some v

unfoldable pub id_is_live : ℕ → VarIdMap → Bool
id_is_live id m = is_live (get_elem? m.id_to_var id)

-- One pair of a renaming, once the id of its source is known.
abbrev pub renamed : Option ℕ → Variable → Variable → VarIdMap → Option VarIdMap
renamed none from to m = some m
renamed (some id) from to m = orphan_at (get to (remove from m.var_to_id)) m >>= λ m'.
    assign id (some to) m'.id_to_var >>= λ ids.
    some
      (record { var_to_id = insert to id (remove to (remove from m.var_to_id)); id_to_var = ids })

unfoldable pub rename : List (Variable × Variable) → VarIdMap → Option VarIdMap
rename [] m = some m
rename ((from, to) ∷ renaming) m =
    renamed (get from m.var_to_id) from to m >>= λ m'. rename renaming m'
