-- ===== src/Crab/TypeToNumber/Offsets.antt =====
-- src/crab/type_to_number.rs: the offset variable of a register is that of the first kind of its type.
use prevail_rust.Base.Tests.{◌≡◌, ◌<◌, refl, List, [], ◌∷◌, Option, none, some, ◌>>=◌}
use prevail_rust.Base.Int.{pos}
use prevail_rust.Arith.Linear.{Variable}
use prevail_rust.Crab.TypeEncoding.{DataKind, TypeEncoding}
use prevail_rust.Crab.VarRegistry.{VariableRegistry, reg_ref, new}
use prevail_rust.Crab.VarRegistry.Interning.{IsRegistry, Keeps}
use prevail_rust.Crab.VarRegistry.Kinds.{reg_ref-some}
use prevail_rust.Crab.TypeToNumber.{
  RegPack, get_kind, reg_pack, type_to_kinds, offset_of, get_type_offset_variable,
}
use prevail_rust.Ir.Isa.{Reg}

-- The variable of the first of the kinds, looked up by its name; no variable where there is no kind.
abbrev pub first_variable : List DataKind → Reg → VariableRegistry → Option (Option Variable)
first_variable [] r registry = some none
first_variable (kind ∷ kinds) r registry = reg_ref kind (pos r) registry >>= λ v. some (some v)

module _ (registry : VariableRegistry) (r : Reg) (below : r < 12) (valid : IsRegistry registry)
    (keeps : Keeps new registry) where
  abbrev Known : DataKind → Type 0
  Known kind = (v : Variable) × (reg_ref kind (pos r) registry ≡ some v)

  known : (kind : DataKind) → Known kind
  known kind = let (v, first, e) = reg_ref-some registry kind r below valid keeps in (v, e)

  abbrev pack : RegPack
  pack = record {
    svalue = (known DataKind.svalues).0;
    uvalue = (known DataKind.uvalues).0;
    ctx_offset = (known DataKind.ctx_offsets).0;
    map_fd = (known DataKind.map_fds).0;
    map_fd_programs = (known DataKind.map_fd_programs).0;
    packet_offset = (known DataKind.packet_offsets).0;
    shared_offset = (known DataKind.shared_offsets).0;
    stack_offset = (known DataKind.stack_offsets).0;
    shared_region_size = (known DataKind.shared_region_sizes).0;
    stack_numeric_size = (known DataKind.stack_numeric_sizes).0;
    socket_offset = (known DataKind.socket_offsets).0;
    btf_id_offset = (known DataKind.btf_id_offsets).0;
    alloc_mem_offset = (known DataKind.alloc_mem_offsets).0;
    alloc_mem_size = (known DataKind.alloc_mem_sizes).0;
  }

  reg_pack-pack : reg_pack r registry ≡ some pack
  unfolding reg_pack
  reg_pack-pack =
      rw
        (
          (known DataKind.svalues).1,
          (known DataKind.uvalues).1,
          (known DataKind.ctx_offsets).1,
          (known DataKind.map_fds).1,
          (known DataKind.map_fd_programs).1,
          (known DataKind.packet_offsets).1,
          (known DataKind.shared_offsets).1,
          (known DataKind.stack_offsets).1,
          (known DataKind.shared_region_sizes).1,
          (known DataKind.stack_numeric_sizes).1,
          (known DataKind.socket_offsets).1,
          (known DataKind.btf_id_offsets).1,
          (known DataKind.alloc_mem_offsets).1,
          (known DataKind.alloc_mem_sizes).1,
        )
        refl

  -- The variable of the offset kind and that of the first kind are there, and the same.
  abbrev Agrees : Option DataKind → List DataKind → Type 0
  Agrees kind kinds =
      (answer : Option Variable) × (offset_of kind r registry ≡ some answer)
      × (first_variable kinds r registry ≡ some answer)

  nothing : Agrees none []
  nothing = (none, refl, refl)

  picked :
      (kind : DataKind) (kinds : List DataKind)
      → get_kind pack kind ≡ some (known kind).0
      → Agrees (some kind) (kind ∷ kinds)
  picked kind kinds found =
      (some (known kind).0, rw (reg_pack-pack, found) refl, rw ((known kind).1) refl)

  -- For the registers r0 to r11 and a well-formed registry that keeps the first names,
  -- get_type_offset_variable does not panic at any type. It answers the registered variable of
  -- the first kind that type_to_kinds lists for the type, and none where it lists no kind.
  pub get_type_offset_variable-first :
      (te : TypeEncoding)
      → (answer : Option Variable) × (get_type_offset_variable r te registry ≡ some answer)
        × (first_variable (type_to_kinds te) r registry ≡ some answer)
  unfolding get_type_offset_variable type_to_kinds get_kind
  get_type_offset_variable-first TypeEncoding.t_uninit = nothing
  get_type_offset_variable-first TypeEncoding.t_map_programs =
      picked DataKind.map_fd_programs [] refl
  get_type_offset_variable-first TypeEncoding.t_map = picked DataKind.map_fds [] refl
  get_type_offset_variable-first TypeEncoding.t_num = picked DataKind.svalues [] refl
  get_type_offset_variable-first TypeEncoding.t_ctx = picked DataKind.ctx_offsets [] refl
  get_type_offset_variable-first TypeEncoding.t_packet = picked DataKind.packet_offsets [] refl
  get_type_offset_variable-first TypeEncoding.t_stack =
      picked DataKind.stack_offsets (DataKind.stack_numeric_sizes ∷ []) refl
  get_type_offset_variable-first TypeEncoding.t_shared =
      picked DataKind.shared_offsets (DataKind.shared_region_sizes ∷ []) refl
  get_type_offset_variable-first TypeEncoding.t_socket = picked DataKind.socket_offsets [] refl
  get_type_offset_variable-first TypeEncoding.t_btf_id = picked DataKind.btf_id_offsets [] refl
  get_type_offset_variable-first TypeEncoding.t_alloc_mem =
      picked DataKind.alloc_mem_offsets (DataKind.alloc_mem_sizes ∷ []) refl
  get_type_offset_variable-first TypeEncoding.t_func = nothing
