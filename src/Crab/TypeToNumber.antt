-- ===== src/Crab/TypeToNumber.antt =====
-- src/crab/type_to_number.rs: the variables of a register, and those that a type gives meaning to.
use prevail_rust.Base.Tests.{ℕ, List, [], ◌∷◌, Option, none, some, ◌>>=◌}
use prevail_rust.Base.Int.{pos}
use prevail_rust.Arith.Linear.{Variable}
use prevail_rust.Crab.TypeEncoding.{DataKind, TypeEncoding}
use prevail_rust.Crab.VarRegistry.{VariableRegistry, reg_ref}
use prevail_rust.Ir.Isa.{Reg}
pub mod Offsets
mod Tests

pub record RegPack : Type 0 where
  pub svalue : Variable
  pub uvalue : Variable
  pub ctx_offset : Variable
  pub map_fd : Variable
  pub map_fd_programs : Variable
  pub packet_offset : Variable
  pub shared_offset : Variable
  pub stack_offset : Variable
  pub shared_region_size : Variable
  pub stack_numeric_size : Variable
  pub socket_offset : Variable
  pub btf_id_offset : Variable
  pub alloc_mem_offset : Variable
  pub alloc_mem_size : Variable

-- It panics for the kind of types.
unfoldable pub get_kind : RegPack → DataKind → Option Variable
get_kind p DataKind.types = none
get_kind p DataKind.svalues = some p.svalue
get_kind p DataKind.uvalues = some p.uvalue
get_kind p DataKind.ctx_offsets = some p.ctx_offset
get_kind p DataKind.map_fds = some p.map_fd
get_kind p DataKind.map_fd_programs = some p.map_fd_programs
get_kind p DataKind.packet_offsets = some p.packet_offset
get_kind p DataKind.shared_offsets = some p.shared_offset
get_kind p DataKind.stack_offsets = some p.stack_offset
get_kind p DataKind.shared_region_sizes = some p.shared_region_size
get_kind p DataKind.stack_numeric_sizes = some p.stack_numeric_size
get_kind p DataKind.socket_offsets = some p.socket_offset
get_kind p DataKind.btf_id_offsets = some p.btf_id_offset
get_kind p DataKind.alloc_mem_offsets = some p.alloc_mem_offset
get_kind p DataKind.alloc_mem_sizes = some p.alloc_mem_size

-- A variable that is not registered is a panic.
unfoldable pub reg_pack : Reg → VariableRegistry → Option RegPack
reg_pack r registry = reg_ref DataKind.svalues (pos r) registry >>= λ svalue.
    reg_ref DataKind.uvalues (pos r) registry >>= λ uvalue.
    reg_ref DataKind.ctx_offsets (pos r) registry >>= λ ctx_offset.
    reg_ref DataKind.map_fds (pos r) registry >>= λ map_fd.
    reg_ref DataKind.map_fd_programs (pos r) registry >>= λ map_fd_programs.
    reg_ref DataKind.packet_offsets (pos r) registry >>= λ packet_offset.
    reg_ref DataKind.shared_offsets (pos r) registry >>= λ shared_offset.
    reg_ref DataKind.stack_offsets (pos r) registry >>= λ stack_offset.
    reg_ref DataKind.shared_region_sizes (pos r) registry >>= λ shared_region_size.
    reg_ref DataKind.stack_numeric_sizes (pos r) registry >>= λ stack_numeric_size.
    reg_ref DataKind.socket_offsets (pos r) registry >>= λ socket_offset.
    reg_ref DataKind.btf_id_offsets (pos r) registry >>= λ btf_id_offset.
    reg_ref DataKind.alloc_mem_offsets (pos r) registry >>= λ alloc_mem_offset.
    reg_ref DataKind.alloc_mem_sizes (pos r) registry >>= λ alloc_mem_size. some (record {
      svalue = svalue;
      uvalue = uvalue;
      ctx_offset = ctx_offset;
      map_fd = map_fd;
      map_fd_programs = map_fd_programs;
      packet_offset = packet_offset;
      shared_offset = shared_offset;
      stack_offset = stack_offset;
      shared_region_size = shared_region_size;
      stack_numeric_size = stack_numeric_size;
      socket_offset = socket_offset;
      btf_id_offset = btf_id_offset;
      alloc_mem_offset = alloc_mem_offset;
      alloc_mem_size = alloc_mem_size;
    })

unfoldable pub type_to_kinds : TypeEncoding → List DataKind
type_to_kinds TypeEncoding.t_ctx = DataKind.ctx_offsets ∷ []
type_to_kinds TypeEncoding.t_map = DataKind.map_fds ∷ []
type_to_kinds TypeEncoding.t_map_programs = DataKind.map_fd_programs ∷ []
type_to_kinds TypeEncoding.t_packet = DataKind.packet_offsets ∷ []
type_to_kinds TypeEncoding.t_shared = DataKind.shared_offsets ∷ DataKind.shared_region_sizes ∷ []
type_to_kinds TypeEncoding.t_stack = DataKind.stack_offsets ∷ DataKind.stack_numeric_sizes ∷ []
type_to_kinds TypeEncoding.t_socket = DataKind.socket_offsets ∷ []
type_to_kinds TypeEncoding.t_btf_id = DataKind.btf_id_offsets ∷ []
type_to_kinds TypeEncoding.t_alloc_mem = DataKind.alloc_mem_offsets ∷ DataKind.alloc_mem_sizes ∷ []
type_to_kinds TypeEncoding.t_func = []
type_to_kinds TypeEncoding.t_num = DataKind.svalues ∷ []
type_to_kinds TypeEncoding.t_uninit = []

unfoldable pub type_to_offset_kind : TypeEncoding → Option DataKind
type_to_offset_kind TypeEncoding.t_ctx = some DataKind.ctx_offsets
type_to_offset_kind TypeEncoding.t_map = some DataKind.map_fds
type_to_offset_kind TypeEncoding.t_map_programs = some DataKind.map_fd_programs
type_to_offset_kind TypeEncoding.t_packet = some DataKind.packet_offsets
type_to_offset_kind TypeEncoding.t_shared = some DataKind.shared_offsets
type_to_offset_kind TypeEncoding.t_stack = some DataKind.stack_offsets
type_to_offset_kind TypeEncoding.t_socket = some DataKind.socket_offsets
type_to_offset_kind TypeEncoding.t_btf_id = some DataKind.btf_id_offsets
type_to_offset_kind TypeEncoding.t_alloc_mem = some DataKind.alloc_mem_offsets
type_to_offset_kind TypeEncoding.t_num = some DataKind.svalues
type_to_offset_kind _ = none

-- The outer `none` is a panic, the inner one the missing kind.
abbrev pub offset_of : Option DataKind → Reg → VariableRegistry → Option (Option Variable)
offset_of none r registry = some none
offset_of (some kind) r registry =
    reg_pack r registry >>= λ pack. get_kind pack kind >>= λ v. some (some v)

unfoldable pub get_type_offset_variable :
    Reg → TypeEncoding → VariableRegistry → Option (Option Variable)
unfolding type_to_offset_kind reg_pack get_kind
get_type_offset_variable r type_val registry = offset_of (type_to_offset_kind type_val) r registry
