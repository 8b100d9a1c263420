-- ===== src/Crab/VarRegistry/Tests.antt =====
-- src/crab/var_registry.rs at concrete names.
use prevail_rust.Base.Tests.{◌≡◌, refl, some, true, [], arith}
use prevail_rust.Base.Lists.{get_elem?}
use prevail_rust.Base.Decimal.{to_string}
use prevail_rust.Base.Int.{pos, ◌-ℤ◌, ◌+ℤ◌}
use prevail_rust.Arith.Linear.{Variable}
use prevail_rust.Crab.TypeEncoding.{DataKind, name_of}
use prevail_rust.Crab.VarRegistry.{
  VarMetadata, VariableRegistry, Registered, codes, default_metadata, meta_for_kind, with_kind,
  reg_owner, new, default_variables, register, reg_ref, kind_var, cell_var_int,
}
use prevail_rust.Crab.VarRegistry.Interning.{Keeps, Interned, register-Interned}
use prevail_rust.Crab.VarRegistry.Kinds.{kind_var-Interned, reg_ref-some, new-IsRegistry}

register-Interned_example :
    Interned (codes "custom") default_metadata new (register (codes "custom") default_metadata new)
register-Interned_example = register-Interned (codes "custom") default_metadata new new-IsRegistry

-- The type of r0 is the variable 8.
kind_var-Interned_example :
    (meta : VarMetadata) × (get_elem? new.metadata 8 ≡ some meta)
    × (result : Registered) × (kind_var DataKind.svalues 8 new ≡ some result)
    × Interned
        (with_kind (reg_owner (pos 0)) DataKind.svalues)
        (meta_for_kind DataKind.svalues meta.is_stack_cell)
        new
        result
unfolding new default_variables
kind_var-Interned_example =
    kind_var-Interned new 8 (reg_owner (pos 0)) DataKind.types DataKind.svalues new-IsRegistry refl

abbrev unchanged : Keeps new new
unchanged = record { keeps_name = λ i n h. h; keeps_metadata = λ i m h. h }

reg_ref-some_example :
    (v : Variable) × (reg_ref DataKind.uvalues (pos 11) new ≡ some v)
    × (reg_ref DataKind.uvalues (pos 11) new ≡ some v)
reg_ref-some_example = reg_ref-some new DataKind.uvalues 11 (omega arith) new-IsRegistry unchanged

abbrev empty : VariableRegistry
empty = record { names = []; metadata = []; index = [] }

-- The cell of eight bytes at 4.
cell_name :
    cell_var_int DataKind.uvalues 4 8 empty
    ≡ some (register (codes "s[4...11].uvalue") (meta_for_kind DataKind.uvalues true) empty)
unfolding cell_var_int with_kind name_of ◌-ℤ◌ ◌+ℤ◌ to_string
cell_name = refl
