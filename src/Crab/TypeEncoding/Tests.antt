-- ===== src/Crab/TypeEncoding/Tests.antt =====
-- Sets of types of src/crab/type_encoding.rs at concrete inputs.
use prevail_rust.Base.Tests.{◌≡◌, ◌↔◌, refl, some, arith, ◌&&◌, ◌||◌, not, ◌==◌, none}
use prevail_rust.Base.Lists.{length}
use prevail_rust.Crab.TypeEncoding.{
  TypeEncoding, DataKind, type_name, string_to_type_encoding, type_to_bit, iterate_kinds,
}
use prevail_rust.Crab.TypeEncoding.Names.{string_to_type_encoding-type_name}
use prevail_rust.Crab.TypeEncoding.Sets.{contains, union, intersect, remove, singleton, iter, len}
use prevail_rust.Crab.TypeEncoding.Sets.Members.{set_operations-contains}
use prevail_rust.Crab.TypeEncoding.Sets.Singletons.{iter-members_of, members_of, all_types}

string_to_type_encoding-type_name_example :
    (string_to_type_encoding "ctx" ≡ some TypeEncoding.t_ctx)
    ↔ (type_name TypeEncoding.t_ctx ≡ "ctx")
string_to_type_encoding-type_name_example =
    string_to_type_encoding-type_name "ctx" TypeEncoding.t_ctx

set_operations-contains_example :
    (contains (union 8 80) TypeEncoding.t_stack
      ≡ (contains 8 TypeEncoding.t_stack || contains 80 TypeEncoding.t_stack))
    × (contains (intersect 8 80) TypeEncoding.t_stack
        ≡ (contains 8 TypeEncoding.t_stack && contains 80 TypeEncoding.t_stack))
    × (contains (remove 8 TypeEncoding.t_num) TypeEncoding.t_stack ≡ (
        contains 8 TypeEncoding.t_stack
        && not (type_to_bit TypeEncoding.t_stack == type_to_bit TypeEncoding.t_num)))
    × (contains (singleton TypeEncoding.t_num) TypeEncoding.t_stack
        ≡ (type_to_bit TypeEncoding.t_stack == type_to_bit TypeEncoding.t_num))
set_operations-contains_example =
    set_operations-contains 8 80 TypeEncoding.t_num TypeEncoding.t_stack

iter-members_of_example : (iter 80 ≡ members_of 80 all_types) × (len 80 ≡ length (iter 80))
iter-members_of_example = iter-members_of 80 (omega arith)

-- The bounds of a walk over the kinds in the wrong order are a panic.
kinds_out_of_order : iterate_kinds DataKind.uvalues DataKind.svalues ≡ none
unfolding iterate_kinds
kinds_out_of_order = refl
