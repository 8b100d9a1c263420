-- ===== src/Crab/TypeEncoding/Sets.antt =====
-- src/crab/type_encoding.rs: `TypeSet`, a `u16` with a bit for each type, and the sets that the
-- groups of types name.
use Prim.Native.Nat.{bit_and, bit_or}
use prevail_rust.Base.Tests.{
  ℕ, zero, suc, ◌+◌, ◌-◌, ◌*◌, ◌/◌, ◌%◌, ◌^◌, Bool, true, false, not, ◌&&◌, List, [], ◌∷◌, Option,
  none, some, if◌then◌else◌, ◌==◌, ltb, leb, ◌>>=◌,
}
use prevail_rust.Base.Int.{pos}
use prevail_rust.Crab.TypeEncoding.{TypeEncoding, type_to_bit, int_to_type_encoding}
pub mod Members
pub mod Singletons

abbrev pub TypeSet : Type 0
TypeSet = ℕ

abbrev pub bit : TypeEncoding → ℕ
bit te = 2 ^ type_to_bit te

-- `!x` of a `u16`.
abbrev pub complement : ℕ → ℕ
complement x = 65535 - x

abbrev pub empty : TypeSet
empty = 0

abbrev pub all : TypeSet
all = 2 ^ 12 - 1

unfoldable pub singleton : TypeEncoding → TypeSet
singleton te = bit te

-- The loop over the types, with the bits gathered so far.
abbrev gather : TypeSet → List TypeEncoding → TypeSet
gather bits [] = bits
gather bits (te ∷ types) = gather (bit_or bits (bit te)) types

unfoldable pub of : List TypeEncoding → TypeSet
of types = gather 0 types

unfoldable pub is_empty : TypeSet → Bool
is_empty s = s == 0

unfoldable pub is_singleton : TypeSet → Bool
is_singleton s = not (s == 0) && (bit_and s (s - 1) == 0)

unfoldable pub contains : TypeSet → TypeEncoding → Bool
contains s te = not (bit_and s (bit te) == 0)

unfoldable pub union : TypeSet → TypeSet → TypeSet
union a b = bit_or a b

unfoldable pub intersect : TypeSet → TypeSet → TypeSet
intersect a b = bit_and a b

unfoldable pub remove : TypeSet → TypeEncoding → TypeSet
remove s te = bit_and s (complement (bit te))

unfoldable pub is_subset_of : TypeSet → TypeSet → Bool
is_subset_of a b = bit_and a (complement b) == 0

-- `count_ones` of the low bits of a word, as many as the fuel.
abbrev count_ones : ℕ → ℕ → ℕ
count_ones zero n = 0
count_ones (suc w) n = n % 2 + count_ones w (n / 2)

unfoldable pub len : TypeSet → ℕ
len s = count_ones 16 s

-- `trailing_zeros` of the low bits of a word, as many as the fuel.
abbrev pub trailing_zeros : ℕ → ℕ → ℕ
trailing_zeros zero n = 0
trailing_zeros (suc w) n = if n % 2 == 1 then 0 else suc (trailing_zeros w (n / 2))

unfoldable pub as_singleton : TypeSet → Option TypeEncoding
unfolding is_singleton
as_singleton s = if is_singleton s then int_to_type_encoding (pos (trailing_zeros 16 s)) else none

-- `TypeSetIter::next`: the type of the lowest bit, and the set without it.
unfoldable pub next : TypeSet → TypeSet × Option TypeEncoding
next s =
    if s == 0
    then (s, none)
    else (bit_and s (s - 1), int_to_type_encoding (pos (trailing_zeros 16 s)))

-- The types that the iterator yields until its first `None`; each round clears one of 16 bits.
abbrev collect : ℕ → TypeSet → List TypeEncoding
unfolding next
collect zero s = []
collect (suc fuel) s = elim (next s).1 [ none ↦ [] | some te ↦ te ∷ collect fuel (next s).0 ]

unfoldable pub iter : TypeSet → List TypeEncoding
unfolding next
iter s = collect 17 s

pub data TypeGroup : Type 0 where
  number : TypeGroup
  map_fd : TypeGroup
  ctx : TypeGroup
  ctx_or_num : TypeGroup
  packet : TypeGroup
  stack : TypeGroup
  stack_or_num : TypeGroup
  shared : TypeGroup
  map_fd_programs : TypeGroup
  mem : TypeGroup
  mem_or_num : TypeGroup
  dereferenceable : TypeGroup
  pointer : TypeGroup
  ptr_or_num : TypeGroup
  stack_or_packet : TypeGroup
  singleton_ptr : TypeGroup
  socket : TypeGroup
  btf_id : TypeGroup
  alloc_mem : TypeGroup
  func : TypeGroup

unfoldable pub ts_num : TypeSet
unfolding singleton of
ts_num = singleton TypeEncoding.t_num

unfoldable pub ts_mem : TypeSet
unfolding singleton of
ts_mem = of (TypeEncoding.t_packet ∷ TypeEncoding.t_stack ∷ TypeEncoding.t_shared ∷ [])

unfoldable pub ts_pointer : TypeSet
unfolding singleton of
ts_pointer =
    of (
      TypeEncoding.t_ctx ∷ TypeEncoding.t_packet ∷ TypeEncoding.t_stack ∷ TypeEncoding.t_shared
      ∷ [])

unfoldable pub ts_singleton_ptr : TypeSet
unfolding singleton of
ts_singleton_ptr = of (TypeEncoding.t_ctx ∷ TypeEncoding.t_packet ∷ TypeEncoding.t_stack ∷ [])

unfoldable pub ts_dereferenceable : TypeSet
unfolding singleton of
ts_dereferenceable = of (
    TypeEncoding.t_ctx ∷ TypeEncoding.t_packet ∷ TypeEncoding.t_stack ∷ TypeEncoding.t_shared
    ∷ TypeEncoding.t_socket ∷ TypeEncoding.t_alloc_mem ∷ [])

unfoldable pub is_singleton_type : TypeGroup → Bool
is_singleton_type TypeGroup.number = true
is_singleton_type TypeGroup.map_fd = true
is_singleton_type TypeGroup.ctx = true
is_singleton_type TypeGroup.packet = true
is_singleton_type TypeGroup.stack = true
is_singleton_type TypeGroup.shared = true
is_singleton_type TypeGroup.map_fd_programs = true
is_singleton_type TypeGroup.socket = true
is_singleton_type TypeGroup.btf_id = true
is_singleton_type TypeGroup.alloc_mem = true
is_singleton_type TypeGroup.func = true
is_singleton_type TypeGroup.ctx_or_num = false
is_singleton_type TypeGroup.stack_or_num = false
is_singleton_type TypeGroup.mem = false
is_singleton_type TypeGroup.mem_or_num = false
is_singleton_type TypeGroup.dereferenceable = false
is_singleton_type TypeGroup.pointer = false
is_singleton_type TypeGroup.ptr_or_num = false
is_singleton_type TypeGroup.stack_or_packet = false
is_singleton_type TypeGroup.singleton_ptr = false

unfoldable pub to_typeset : TypeGroup → TypeSet
unfolding singleton of ts_num ts_mem ts_pointer ts_dereferenceable ts_singleton_ptr union
to_typeset TypeGroup.number = singleton TypeEncoding.t_num
to_typeset TypeGroup.map_fd = singleton TypeEncoding.t_map
to_typeset TypeGroup.ctx = singleton TypeEncoding.t_ctx
to_typeset TypeGroup.ctx_or_num = of (TypeEncoding.t_num ∷ TypeEncoding.t_ctx ∷ [])
to_typeset TypeGroup.packet = singleton TypeEncoding.t_packet
to_typeset TypeGroup.stack = singleton TypeEncoding.t_stack
to_typeset TypeGroup.stack_or_num = of (TypeEncoding.t_num ∷ TypeEncoding.t_stack ∷ [])
to_typeset TypeGroup.shared = singleton TypeEncoding.t_shared
to_typeset TypeGroup.map_fd_programs = singleton TypeEncoding.t_map_programs
to_typeset TypeGroup.mem = ts_mem
to_typeset TypeGroup.mem_or_num = union ts_mem ts_num
to_typeset TypeGroup.dereferenceable = ts_dereferenceable
to_typeset TypeGroup.pointer = ts_pointer
to_typeset TypeGroup.ptr_or_num = union ts_pointer ts_num
to_typeset TypeGroup.stack_or_packet = of (TypeEncoding.t_stack ∷ TypeEncoding.t_packet ∷ [])
to_typeset TypeGroup.singleton_ptr = ts_singleton_ptr
to_typeset TypeGroup.socket = singleton TypeEncoding.t_socket
to_typeset TypeGroup.btf_id = singleton TypeEncoding.t_btf_id
to_typeset TypeGroup.alloc_mem = singleton TypeEncoding.t_alloc_mem
to_typeset TypeGroup.func = singleton TypeEncoding.t_func
