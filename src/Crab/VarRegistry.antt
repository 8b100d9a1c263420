-- ===== src/Crab/VarRegistry.antt =====
-- src/crab/var_registry.rs: names of variables, interned as ids. A name is the list of its code
-- points; a method that mutates the registry returns the new one.
use Prim.Native.Nat.{Ordering}
use Prim.Native.Char.{code}
use Prim.Native.String.{String}
use prevail_rust.Base.Tests.{
  ℕ, zero, suc, ◌+◌, ◌%◌, ◌^◌, Bool, true, false, not, List, [], ◌∷◌, ◌++◌, Option, none, some,
  ◌>>=◌, if◌then◌else◌, ◌==◌,
}
use prevail_rust.Base.Lists.{length, get_elem?}
use prevail_rust.Base.Decimal.{to_string}
use prevail_rust.Base.Int.{ℤ, pos, eqb_ℤ}
use prevail_rust.Base.Maps.{Map, get, insert}
use prevail_rust.Arith.Linear.{Variable}
use prevail_rust.Arith.Number.{Number, checked_add, checked_sub, cast_to_unsigned_width}
use prevail_rust.Cfg.Label.{Text, text_ord, cmp_text}
use prevail_rust.Crab.TypeEncoding.{DataKind, kind_index, name_of}
use prevail_rust.Ir.Isa.{signed}
pub mod Interning
pub mod Kinds
mod Tests

abbrev pub codes : String → Text
codes String.[] = []
codes (String.◌∷◌ c s) = code c ∷ codes s

pub record VarMetadata : Type 0 where
  pub kind : Option DataKind
  pub is_stack_cell : Bool
  pub is_loop_counter : Bool
  pub is_min_only : Bool

abbrev pub default_metadata : VarMetadata
default_metadata = record {
  kind = none;
  is_stack_cell = false;
  is_loop_counter = false;
  is_min_only = false;
}

pub record VariableRegistry : Type 0 where
  pub names : List Text
  pub metadata : List VarMetadata
  pub index : Map Text ℕ

abbrev default_reg_kinds : List DataKind
default_reg_kinds =
    DataKind.svalues ∷ DataKind.uvalues ∷ DataKind.ctx_offsets ∷ DataKind.map_fds
    ∷ DataKind.map_fd_programs ∷ DataKind.packet_offsets ∷ DataKind.shared_offsets
    ∷ DataKind.stack_offsets ∷ DataKind.types ∷ DataKind.shared_region_sizes
    ∷ DataKind.stack_numeric_sizes ∷ DataKind.socket_offsets ∷ DataKind.btf_id_offsets
    ∷ DataKind.alloc_mem_offsets ∷ DataKind.alloc_mem_sizes ∷ []

abbrev pub has_only_minimum : DataKind → Bool
has_only_minimum DataKind.stack_numeric_sizes = true
has_only_minimum DataKind.shared_region_sizes = true
has_only_minimum _ = false

abbrev pub meta_for_kind : DataKind → Bool → VarMetadata
meta_for_kind kind is_stack_cell = record {
  kind = some kind;
  is_stack_cell = is_stack_cell;
  is_loop_counter = false;
  is_min_only = has_only_minimum kind;
}

-- What stands before the dot, the dot, and the name of the kind.
unfoldable pub with_kind : Text → DataKind → Text
with_kind owner kind = owner ++ (46 ∷ codes (name_of kind))

unfoldable pub reg_owner : ℤ → Text
reg_owner i = 114 ∷ to_string i

abbrev Entry : Type 0
Entry = Text × VarMetadata

unfoldable pub reg_entries : ℕ → List DataKind → List Entry
unfolding with_kind reg_owner to_string
reg_entries i [] = []
reg_entries i (kind ∷ kinds) =
    (with_kind (reg_owner (pos i)) kind, meta_for_kind kind false) ∷ reg_entries i kinds

-- The registers from the number on, `count` of them.
unfoldable pub all_reg_entries : ℕ → ℕ → List Entry
unfolding reg_entries
all_reg_entries i zero = []
all_reg_entries i (suc count) = reg_entries i default_reg_kinds ++ all_reg_entries (suc i) count

unfoldable pub default_variables : List Entry
unfolding all_reg_entries
default_variables =
    all_reg_entries 0 12
    ++ ((codes "data_size", default_metadata)
        ∷ (codes "meta_size", default_metadata)
        ∷ (codes "meta_offset", default_metadata)
        ∷ (codes "packet_size", record default_metadata { is_min_only = true })
        ∷ [])

abbrev pub names_of : List Entry → List Text
names_of [] = []
names_of (e ∷ es) = e.0 ∷ names_of es

abbrev pub metadata_of : List Entry → List VarMetadata
metadata_of [] = []
metadata_of (e ∷ es) = e.1 ∷ metadata_of es

-- The names with their positions, collected into a map.
unfoldable pub index_names : ℕ → List Text → Map Text ℕ → Map Text ℕ
index_names i [] m = m
index_names i (n ∷ ns) m = index_names (suc i) ns (insert n i m)

unfoldable pub of_entries : List Entry → VariableRegistry
unfolding index_names
of_entries entries = record {
  names = names_of entries;
  metadata = metadata_of entries;
  index = index_names 0 (names_of entries) [];
}

unfoldable pub new : VariableRegistry
unfolding of_entries default_variables
new = of_entries default_variables

abbrev pub Registered : Type 0
Registered = VariableRegistry × Variable

abbrev pub register_at : Option ℕ → Text → VarMetadata → VariableRegistry → Registered
register_at (some id) name meta r = (r, id)
register_at none name meta r = (
  record {
    names = r.names ++ (name ∷ []);
    metadata = r.metadata ++ (meta ∷ []);
    index = insert name (length r.names) r.index;
  },
  length r.names,
)

unfoldable pub register : Text → VarMetadata → VariableRegistry → Registered
register name meta r = register_at (get name r.index) name meta r

unfoldable pub make : Text → VariableRegistry → Registered
unfolding register
make name r = register name default_metadata r

-- An index out of range is a panic, as is a name that is not registered.
abbrev pub name : VariableRegistry → Variable → Option Text
name r v = get_elem? r.names v

unfoldable pub get_variable : Text → VariableRegistry → Option Variable
get_variable name r = get name r.index

unfoldable pub reg_ref : DataKind → ℤ → VariableRegistry → Option Variable
unfolding get_variable with_kind reg_owner
reg_ref kind i r = get_variable (with_kind (reg_owner i) kind) r

unfoldable pub reg : DataKind → ℤ → VariableRegistry → Registered
unfolding register with_kind reg_owner
reg kind i r = register (with_kind (reg_owner i) kind) (meta_for_kind kind false) r

unfoldable pub type_reg : ℤ → VariableRegistry → Registered
unfolding reg
type_reg i r = reg DataKind.types i r

unfoldable pub stack_frame_var : DataKind → ℤ → Text → VariableRegistry → Registered
unfolding register with_kind reg_owner
stack_frame_var kind i prefix r =
    register (with_kind (prefix ++ (47 ∷ reg_owner i)) kind) (meta_for_kind kind false) r

abbrev cell_owner : Number → Option Number → Text
cell_owner o none = codes "s[" ++ to_string o ++ codes "]"
cell_owner o (some end) = codes "s[" ++ to_string o ++ codes "..." ++ to_string end ++ codes "]"

-- The last byte of a cell, where it has more than one.
abbrev cell_end : Number → Number → Option (Option Number)
cell_end o size =
    if not (eqb_ℤ size (pos 1))
    then (checked_add o size >>= λ sum. checked_sub sum (pos 1) >>= λ end. some (some end))
    else some none

unfoldable pub cell_var : DataKind → Number → Number → VariableRegistry → Option Registered
unfolding register with_kind checked_add checked_sub cast_to_unsigned_width
cell_var array offset size r = cast_to_unsigned_width offset 64 >>= λ o. cell_end o size >>= λ end.
    some (register (with_kind (cell_owner o end) array) (meta_for_kind array true) r)

-- The casts to `i64` wrap around.
unfoldable pub cell_var_int : DataKind → ℕ → ℕ → VariableRegistry → Option Registered
unfolding cell_var
cell_var_int kind offset size r =
    cell_var kind (signed 64 (offset % 2 ^ 64)) (signed 64 (size % 2 ^ 32)) r

unfoldable pub map_fd_programs_reg : ℤ → VariableRegistry → Registered
unfolding reg
map_fd_programs_reg i r = reg DataKind.map_fd_programs i r

abbrev before_dot : ℕ → Option Text → Option Text
before_dot c (some before) = some (c ∷ before)
before_dot c none = if c == 46 then some [] else none

-- The text before the last dot, if there is one.
unfoldable pub before_last_dot : Text → Option Text
before_last_dot [] = none
before_last_dot (c ∷ cs) = before_dot c (before_last_dot cs)

unfoldable pub kind_var : DataKind → Variable → VariableRegistry → Option Registered
unfolding register with_kind before_last_dot
kind_var kind type_variable r = get_elem? r.metadata type_variable >>= λ meta.
    name r type_variable >>= λ var_name. before_last_dot var_name >>= λ owner.
    some (register (with_kind owner kind) (meta_for_kind kind meta.is_stack_cell) r)

unfoldable pub meta_offset : VariableRegistry → Registered
unfolding make
meta_offset r = make (codes "meta_offset") r

unfoldable pub packet_size : VariableRegistry → Registered
unfolding register
packet_size r = register (codes "packet_size") (record default_metadata { is_min_only = true }) r

unfoldable pub loop_counter : Text → VariableRegistry → Registered
unfolding register
loop_counter label r =
    register (codes "pc[" ++ label ++ codes "]")
      (record default_metadata { is_loop_counter = true }) r

abbrev is_kind : DataKind → Option DataKind → Bool
is_kind kind none = false
is_kind kind (some k) = kind_index k == kind_index kind

abbrev pub with_metadata : {A : Type 0} → VariableRegistry → Variable → (VarMetadata → A) → Option A
with_metadata r v f = get_elem? r.metadata v >>= λ m. some (f m)

unfoldable pub is_type : VariableRegistry → Variable → Option Bool
is_type r v = with_metadata r v (λ m. is_kind DataKind.types m.kind)

unfoldable pub is_unsigned : VariableRegistry → Variable → Option Bool
is_unsigned r v = with_metadata r v (λ m. is_kind DataKind.uvalues m.kind)

unfoldable pub is_in_stack : VariableRegistry → Variable → Option Bool
is_in_stack r v = with_metadata r v (λ m. m.is_stack_cell)

unfoldable pub is_min_only : VariableRegistry → Variable → Option Bool
is_min_only r v = with_metadata r v (λ m. m.is_min_only)

-- The positions, from the first on, of the metadata that pass the test.
unfoldable pub positions : (VarMetadata → Bool) → ℕ → List VarMetadata → List Variable
positions test i [] = []
positions test i (m ∷ ms) =
    let rest = positions test (suc i) ms in if test m then i ∷ rest else rest

unfoldable pub get_type_variables : VariableRegistry → List Variable
unfolding positions
get_type_variables r = positions (λ m. is_kind DataKind.types m.kind) 0 r.metadata

unfoldable pub get_loop_counters : VariableRegistry → List Variable
unfolding positions
get_loop_counters r = positions (λ m. m.is_loop_counter) 0 r.metadata

unfoldable pub printing_order : VariableRegistry → Variable → Variable → Option Ordering
unfolding cmp_text
printing_order r a b = name r a >>= λ x. name r b >>= λ y. some (cmp_text x y)
