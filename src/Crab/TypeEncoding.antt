-- ===== src/Crab/TypeEncoding.antt =====
-- src/crab/type_encoding.rs: the kinds of data of a register, the types of values, sets of types
-- and the groups of types that assertions name. A name is a native text.
use Prim.Native.Nat.{bit_and, bit_or}
use Prim.Native.String.{String}
use text.Mathlib.Text.{◌==◌ as str_eq}
use prevail_rust.Base.Tests.{
  ℕ, zero, suc, ◌+◌, ◌-◌, ◌*◌, ◌/◌, ◌%◌, ◌^◌, Bool, true, false, not, ◌&&◌, List, [], ◌∷◌, Option,
  none, some, if◌then◌else◌, ◌==◌, ltb, leb, ◌>>=◌, switch,
}
use prevail_rust.Base.Int.{ℤ, pos, negsuc}
pub mod Names
pub mod Sets
mod Tests

pub data DataKind : Type 0 where
  types : DataKind
  svalues : DataKind
  uvalues : DataKind
  ctx_offsets : DataKind
  map_fds : DataKind
  map_fd_programs : DataKind
  packet_offsets : DataKind
  shared_offsets : DataKind
  stack_offsets : DataKind
  shared_region_sizes : DataKind
  stack_numeric_sizes : DataKind
  socket_offsets : DataKind
  btf_id_offsets : DataKind
  alloc_mem_offsets : DataKind
  alloc_mem_sizes : DataKind

abbrev kind_min : DataKind
kind_min = DataKind.types

abbrev kind_value_min : DataKind
kind_value_min = DataKind.svalues

abbrev kind_max : DataKind
kind_max = DataKind.alloc_mem_sizes

abbrev pub all_kinds : List DataKind
all_kinds =
    DataKind.types ∷ DataKind.svalues ∷ DataKind.uvalues ∷ DataKind.ctx_offsets ∷ DataKind.map_fds
    ∷ DataKind.map_fd_programs ∷ DataKind.packet_offsets ∷ DataKind.shared_offsets
    ∷ DataKind.stack_offsets ∷ DataKind.shared_region_sizes ∷ DataKind.stack_numeric_sizes
    ∷ DataKind.socket_offsets ∷ DataKind.btf_id_offsets ∷ DataKind.alloc_mem_offsets
    ∷ DataKind.alloc_mem_sizes ∷ []

-- `kind as usize`.
abbrev pub kind_index : DataKind → ℕ
kind_index DataKind.types = 0
kind_index DataKind.svalues = 1
kind_index DataKind.uvalues = 2
kind_index DataKind.ctx_offsets = 3
kind_index DataKind.map_fds = 4
kind_index DataKind.map_fd_programs = 5
kind_index DataKind.packet_offsets = 6
kind_index DataKind.shared_offsets = 7
kind_index DataKind.stack_offsets = 8
kind_index DataKind.shared_region_sizes = 9
kind_index DataKind.stack_numeric_sizes = 10
kind_index DataKind.socket_offsets = 11
kind_index DataKind.btf_id_offsets = 12
kind_index DataKind.alloc_mem_offsets = 13
kind_index DataKind.alloc_mem_sizes = 14

unfoldable pub name_of : DataKind → String
name_of DataKind.types = "type"
name_of DataKind.svalues = "svalue"
name_of DataKind.uvalues = "uvalue"
name_of DataKind.ctx_offsets = "ctx_offset"
name_of DataKind.map_fds = "map_fd"
name_of DataKind.map_fd_programs = "map_fd_programs"
name_of DataKind.packet_offsets = "packet_offset"
name_of DataKind.shared_offsets = "shared_offset"
name_of DataKind.stack_offsets = "stack_offset"
name_of DataKind.shared_region_sizes = "shared_region_size"
name_of DataKind.stack_numeric_sizes = "stack_numeric_size"
name_of DataKind.socket_offsets = "socket_offset"
name_of DataKind.btf_id_offsets = "btf_id_offset"
name_of DataKind.alloc_mem_offsets = "alloc_mem_offset"
name_of DataKind.alloc_mem_sizes = "alloc_mem_size"

-- A `match` of a text against literals.
abbrev pub match_text {ℓ} : {A : Type ℓ} → String → List (String × A) → Option A
match_text s [] = none
match_text s ((name, a) ∷ cases) = if str_eq s name then some a else match_text s cases

abbrev pub kind_names : List (String × DataKind)
kind_names =
    ("type", DataKind.types)
    ∷ ("svalue", DataKind.svalues)
    ∷ ("uvalue", DataKind.uvalues)
    ∷ ("ctx_offset", DataKind.ctx_offsets)
    ∷ ("map_fd", DataKind.map_fds)
    ∷ ("map_fd_programs", DataKind.map_fd_programs)
    ∷ ("packet_offset", DataKind.packet_offsets)
    ∷ ("shared_offset", DataKind.shared_offsets)
    ∷ ("stack_offset", DataKind.stack_offsets)
    ∷ ("shared_region_size", DataKind.shared_region_sizes)
    ∷ ("stack_numeric_size", DataKind.stack_numeric_sizes)
    ∷ ("socket_offset", DataKind.socket_offsets)
    ∷ ("btf_id_offset", DataKind.btf_id_offsets)
    ∷ ("alloc_mem_offset", DataKind.alloc_mem_offsets)
    ∷ ("alloc_mem_size", DataKind.alloc_mem_sizes)
    ∷ []

unfoldable pub regkind : String → Option DataKind
regkind s = match_text s kind_names

-- The entries from the index on, `count` of them.
abbrev pub slice {ℓ} : {A : Type ℓ} → ℕ → ℕ → List A → List A
slice lb count [] = []
slice zero zero (x ∷ xs) = []
slice zero (suc n) (x ∷ xs) = x ∷ slice zero n xs
slice (suc i) n (x ∷ xs) = slice i n xs

-- It panics where the bounds are out of order.
unfoldable pub iterate_kinds : DataKind → DataKind → Option (List DataKind)
iterate_kinds lb ub =
    if leb (kind_index lb) (kind_index ub)
    then some (slice (kind_index lb) (suc (kind_index ub) - kind_index lb) all_kinds)
    else none

pub data TypeEncoding : Type 0 where
  t_uninit : TypeEncoding
  t_map_programs : TypeEncoding
  t_map : TypeEncoding
  t_num : TypeEncoding
  t_ctx : TypeEncoding
  t_packet : TypeEncoding
  t_stack : TypeEncoding
  t_shared : TypeEncoding
  t_socket : TypeEncoding
  t_btf_id : TypeEncoding
  t_alloc_mem : TypeEncoding
  t_func : TypeEncoding

abbrev pub type_to_bit : TypeEncoding → ℕ
type_to_bit TypeEncoding.t_uninit = 0
type_to_bit TypeEncoding.t_map_programs = 1
type_to_bit TypeEncoding.t_map = 2
type_to_bit TypeEncoding.t_num = 3
type_to_bit TypeEncoding.t_ctx = 4
type_to_bit TypeEncoding.t_packet = 5
type_to_bit TypeEncoding.t_stack = 6
type_to_bit TypeEncoding.t_shared = 7
type_to_bit TypeEncoding.t_socket = 8
type_to_bit TypeEncoding.t_btf_id = 9
type_to_bit TypeEncoding.t_alloc_mem = 10
type_to_bit TypeEncoding.t_func = 11

-- `Display`.
unfoldable pub type_name : TypeEncoding → String
type_name TypeEncoding.t_uninit = "uninit"
type_name TypeEncoding.t_map_programs = "map_fd_programs"
type_name TypeEncoding.t_map = "map_fd"
type_name TypeEncoding.t_num = "number"
type_name TypeEncoding.t_ctx = "ctx"
type_name TypeEncoding.t_packet = "packet"
type_name TypeEncoding.t_stack = "stack"
type_name TypeEncoding.t_shared = "shared"
type_name TypeEncoding.t_socket = "socket"
type_name TypeEncoding.t_btf_id = "btf_id"
type_name TypeEncoding.t_alloc_mem = "alloc_mem"
type_name TypeEncoding.t_func = "func"

abbrev pub type_names : List (String × TypeEncoding)
type_names =
    ("uninit", TypeEncoding.t_uninit)
    ∷ ("map_fd_programs", TypeEncoding.t_map_programs)
    ∷ ("map_fd", TypeEncoding.t_map)
    ∷ ("number", TypeEncoding.t_num)
    ∷ ("ctx", TypeEncoding.t_ctx)
    ∷ ("packet", TypeEncoding.t_packet)
    ∷ ("stack", TypeEncoding.t_stack)
    ∷ ("shared", TypeEncoding.t_shared)
    ∷ ("socket", TypeEncoding.t_socket)
    ∷ ("btf_id", TypeEncoding.t_btf_id)
    ∷ ("alloc_mem", TypeEncoding.t_alloc_mem)
    ∷ ("func", TypeEncoding.t_func)
    ∷ []

unfoldable pub string_to_type_encoding : String → Option TypeEncoding
string_to_type_encoding s = match_text s type_names

abbrev pub type_of_index : ℕ → Option TypeEncoding
type_of_index n = switch n (
    (0, TypeEncoding.t_uninit)
    ∷ (1, TypeEncoding.t_map_programs)
    ∷ (2, TypeEncoding.t_map)
    ∷ (3, TypeEncoding.t_num)
    ∷ (4, TypeEncoding.t_ctx)
    ∷ (5, TypeEncoding.t_packet)
    ∷ (6, TypeEncoding.t_stack)
    ∷ (7, TypeEncoding.t_shared)
    ∷ (8, TypeEncoding.t_socket)
    ∷ (9, TypeEncoding.t_btf_id)
    ∷ (10, TypeEncoding.t_alloc_mem)
    ∷ (11, TypeEncoding.t_func)
    ∷ [])

unfoldable pub int_to_type_encoding : ℤ → Option TypeEncoding
int_to_type_encoding (pos n) = type_of_index n
int_to_type_encoding (negsuc n) = none
