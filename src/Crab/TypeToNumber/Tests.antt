-- ===== src/Crab/TypeToNumber/Tests.antt =====
-- src/crab/type_to_number.rs at a concrete register.
use prevail_rust.Base.Tests.{◌≡◌, Option, some, arith}
use prevail_rust.Arith.Linear.{Variable}
use prevail_rust.Crab.TypeEncoding.{TypeEncoding}
use prevail_rust.Crab.VarRegistry.{new}
use prevail_rust.Crab.VarRegistry.Interning.{Keeps}
use prevail_rust.Crab.VarRegistry.Kinds.{new-IsRegistry}
use prevail_rust.Crab.TypeToNumber.{type_to_kinds, get_type_offset_variable}
use prevail_rust.Crab.TypeToNumber.Offsets.{first_variable, get_type_offset_variable-first}

abbrev unchanged : Keeps new new
unchanged = record { keeps_name = λ i n h. h; keeps_metadata = λ i m h. h }

get_type_offset_variable-first_example :
    (answer : Option Variable) × (get_type_offset_variable 10 TypeEncoding.t_stack new
      ≡ some answer)
    × (first_variable (type_to_kinds TypeEncoding.t_stack) 10 new ≡ some answer)
get_type_offset_variable-first_example =
    get_type_offset_variable-first new 10 (omega arith) new-IsRegistry unchanged
      TypeEncoding.t_stack
