-- ===== src/Crab/VarRegistry/Kinds.antt =====
-- src/crab/var_registry.rs: the variable of another kind of the same owner, and the first registry.
use prevail_rust.Base.Tests.{
  ℕ, ◌≡◌, refl, arith, Bool, true, false, ◌==◌, ◌||◌, or-false, [], ◌∷◌, ◌++◌, Option, none, some,
  passes, passes-below, ◌<◌,
}
use prevail_rust.Base.Lists.{get_elem?, get_elem?-lt, get_elem?-some}
use prevail_rust.Base.Decimal.{to_string}
use prevail_rust.Base.Int.{pos}
use prevail_rust.Base.Maps.{get, insert}
use prevail_rust.Arith.Linear.{Variable}
use prevail_rust.Cfg.Label.{Text, cmp_text}
use prevail_rust.Crab.TypeEncoding.{DataKind, name_of}
use prevail_rust.Crab.VarRegistry
use prevail_rust.Crab.VarRegistry.{
  VarMetadata, VariableRegistry, Registered, codes, meta_for_kind, with_kind, before_last_dot,
  kind_var, name, new, reg_ref, reg_owner, get_variable, default_variables, index_names,
}
use prevail_rust.Crab.VarRegistry.Interning.{
  IsRegistry, Keeps, Interned, register-Interned, of_entries-IsRegistry, positioned,
}

abbrev is_some : Option ℕ → Bool
is_some none = false
is_some (some v) = true

abbrev has_dot : Text → Bool
has_dot [] = false
has_dot (c ∷ cs) = (c == 46) || has_dot cs

no_dot-before : (s : Text) → has_dot s ≡ false → before_last_dot s ≡ none
unfolding before_last_dot
no_dot-before [] h = refl
no_dot-before (c ∷ cs) h =
    let (here, later) = or-false (c == 46) (has_dot cs) h in rw (no_dot-before cs later, here) refl

last_dot-before :
    (owner s : Text) → has_dot s ≡ false → before_last_dot (owner ++ (46 ∷ s)) ≡ some owner
unfolding before_last_dot
last_dot-before [] s h = rw (no_dot-before s h) refl
last_dot-before (c ∷ owner) s h = rw (last_dot-before owner s h) refl

no_dot_in_kind : (kind : DataKind) → has_dot (codes (name_of kind)) ≡ false
unfolding name_of
no_dot_in_kind DataKind.types = refl
no_dot_in_kind DataKind.svalues = refl
no_dot_in_kind DataKind.uvalues = refl
no_dot_in_kind DataKind.ctx_offsets = refl
no_dot_in_kind DataKind.map_fds = refl
no_dot_in_kind DataKind.map_fd_programs = refl
no_dot_in_kind DataKind.packet_offsets = refl
no_dot_in_kind DataKind.shared_offsets = refl
no_dot_in_kind DataKind.stack_offsets = refl
no_dot_in_kind DataKind.shared_region_sizes = refl
no_dot_in_kind DataKind.stack_numeric_sizes = refl
no_dot_in_kind DataKind.socket_offsets = refl
no_dot_in_kind DataKind.btf_id_offsets = refl
no_dot_in_kind DataKind.alloc_mem_offsets = refl
no_dot_in_kind DataKind.alloc_mem_sizes = refl

with_kind-before :
    (owner : Text) (kind : DataKind) → before_last_dot (with_kind owner kind) ≡ some owner
unfolding with_kind
with_kind-before owner kind = last_dot-before owner (codes (name_of kind)) (no_dot_in_kind kind)

-- For a registry in which the names and the ids belong to each other, and a variable whose name
-- is an owner, a dot and a kind, the owner with or without dots, kind_var does not panic. It
-- registers the name of the same owner with the other kind, as a stack cell exactly if the
-- variable is one.
pub kind_var-Interned :
    (r : VariableRegistry) (v : Variable) (owner : Text) (old kind : DataKind)
    → IsRegistry r
    → name r v ≡ some (with_kind owner old)
    → (meta : VarMetadata) × (get_elem? r.metadata v ≡ some meta)
      × (result : Registered) × (kind_var kind v r ≡ some result)
      × Interned (with_kind owner kind) (meta_for_kind kind meta.is_stack_cell) r result
unfolding kind_var
kind_var-Interned r v owner old kind valid named =
    let (meta, found) =
      get_elem?-some r.metadata v
        (omega (arith, valid.same_length, get_elem?-lt r.names v named)) in
    (
      meta,
      found,
      _,
      rw (found, named, with_kind-before owner old) refl,
      register-Interned (with_kind owner kind) (meta_for_kind kind meta.is_stack_cell) r valid,
    )

defaults-positioned :
    positioned 0
      (VarRegistry.names_of default_variables)
      (index_names 0 (VarRegistry.names_of default_variables) [])
    ≡ true
unfolding positioned default_variables index_names get insert cmp_text name_of
defaults-positioned = refl

pub new-IsRegistry : IsRegistry new
unfolding new
new-IsRegistry = of_entries-IsRegistry default_variables defaults-positioned

abbrev is_known : DataKind → ℕ → Bool
unfolding reg_ref
is_known kind i = is_some (reg_ref kind (pos i) new)

kind_known : (kind : DataKind) → passes (is_known kind) 0 12 ≡ true
unfolding passes is_known new default_variables get insert cmp_text name_of to_string
kind_known DataKind.types = refl
kind_known DataKind.svalues = refl
kind_known DataKind.uvalues = refl
kind_known DataKind.ctx_offsets = refl
kind_known DataKind.map_fds = refl
kind_known DataKind.map_fd_programs = refl
kind_known DataKind.packet_offsets = refl
kind_known DataKind.shared_offsets = refl
kind_known DataKind.stack_offsets = refl
kind_known DataKind.shared_region_sizes = refl
kind_known DataKind.stack_numeric_sizes = refl
kind_known DataKind.socket_offsets = refl
kind_known DataKind.btf_id_offsets = refl
kind_known DataKind.alloc_mem_offsets = refl
kind_known DataKind.alloc_mem_sizes = refl

is_some-some : (o : Option ℕ) → is_some o ≡ true → (v : ℕ) × (o ≡ some v)
is_some-some none h = absurd (cc h)
is_some-some (some v) h = (v, refl)

-- For the registers r0 to r11 and every kind, reg_ref does not panic in the first registry, nor
-- in any well-formed one that keeps its names, and the two answer the same variable.
pub reg_ref-some :
    (r : VariableRegistry) (kind : DataKind) (i : ℕ)
    → i < 12
    → IsRegistry r
    → Keeps new r
    → (v : Variable) × (reg_ref kind (pos i) new ≡ some v) × (reg_ref kind (pos i) r ≡ some v)
unfolding reg_ref get_variable
reg_ref-some r kind i below valid keeps =
    let (v, known) =
      is_some-some (reg_ref kind (pos i) new)
        (passes-below (is_known kind) 12 i (kind_known kind) below) in
    let n = with_kind (reg_owner (pos i)) kind in
    (v, known, valid.listed n v (keeps.keeps_name v n (new-IsRegistry.found n v known)))
