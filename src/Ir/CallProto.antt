-- ===== src/Ir/CallProto.antt =====
-- src/spec/ebpf_base.rs, src/ir/arg_kind.rs and src/ir/call_proto.rs: the types in a prototype of a
-- helper, and the contract of a call that they amount to. `make_call` of src/ir/unmarshal.rs, at the
-- end, asks the platform for the prototype.
use prevail_rust.Base.Tests.{
  ℕ, zero, suc, ◌+◌, Option, none, some, Bool, true, false, List, [], ◌∷◌, ◌++◌, not, ◌&&◌, ◌>>=◌,
  if◌then◌else◌,
}
use prevail_rust.Base.Lists.{get_elem?}
use prevail_rust.Base.Int.{ℤ, pos}
use prevail_rust.Cfg.Label.{Text}
use prevail_rust.Crab.TypeEncoding.{TypeEncoding}
use prevail_rust.Ir.Isa.{Reg}
use prevail_rust.Ir.Contract.{
  ArgSingleKind, ArgSingle, ArgPairKind, ArgPair, CallKind, CallContract, Reason, Call,
  default_contract,
}
pub mod Prototype
pub mod Slots

pub data EbpfReturnType : Type 0 where
  integer : EbpfReturnType
  ptr_to_map_value_or_null : EbpfReturnType
  integer_or_no_return_if_succeed : EbpfReturnType
  unsupported : EbpfReturnType
  ptr_to_sock_common_or_null : EbpfReturnType
  ptr_to_socket_or_null : EbpfReturnType
  ptr_to_tcp_socket_or_null : EbpfReturnType
  ptr_to_alloc_mem_or_null : EbpfReturnType
  ptr_to_btf_id_or_null : EbpfReturnType
  ptr_to_mem_or_btf_id_or_null : EbpfReturnType
  ptr_to_btf_id : EbpfReturnType
  ptr_to_mem_or_btf_id : EbpfReturnType

pub data EbpfArgumentType : Type 0 where
  dont_care : EbpfArgumentType
  anything : EbpfArgumentType
  const_size : EbpfArgumentType
  const_size_or_zero : EbpfArgumentType
  ptr_to_ctx : EbpfArgumentType
  ptr_to_map : EbpfArgumentType
  ptr_to_map_of_programs : EbpfArgumentType
  ptr_to_map_key : EbpfArgumentType
  ptr_to_map_value : EbpfArgumentType
  ptr_to_readable_mem : EbpfArgumentType
  ptr_to_readable_mem_or_null : EbpfArgumentType
  ptr_to_writable_mem : EbpfArgumentType
  ptr_to_stack : EbpfArgumentType
  ptr_to_stack_or_null : EbpfArgumentType
  ptr_to_ctx_or_null : EbpfArgumentType
  ptr_to_writable_mem_or_null : EbpfArgumentType
  ptr_to_btf_id_sock_common : EbpfArgumentType
  ptr_to_spin_lock : EbpfArgumentType
  ptr_to_sock_common : EbpfArgumentType
  ptr_to_btf_id : EbpfArgumentType
  ptr_to_long : EbpfArgumentType
  ptr_to_int : EbpfArgumentType
  ptr_to_const_str : EbpfArgumentType
  ptr_to_func : EbpfArgumentType
  const_alloc_size_or_zero : EbpfArgumentType
  ptr_to_alloc_mem : EbpfArgumentType
  ptr_to_timer : EbpfArgumentType
  ptr_to_percpu_btf_id : EbpfArgumentType
  ptr_to_readonly_mem : EbpfArgumentType
  ptr_to_readonly_mem_or_null : EbpfArgumentType
  ptr_to_uninit_map_value : EbpfArgumentType
  const_ptr_to_map : EbpfArgumentType
  unsupported : EbpfArgumentType

unfoldable pub to_arg_single_kind : EbpfArgumentType → Option ArgSingleKind
to_arg_single_kind EbpfArgumentType.anything = some ArgSingleKind.anything
to_arg_single_kind EbpfArgumentType.ptr_to_stack = some ArgSingleKind.ptr_to_stack
to_arg_single_kind EbpfArgumentType.ptr_to_stack_or_null = some ArgSingleKind.ptr_to_stack
to_arg_single_kind EbpfArgumentType.ptr_to_map = some ArgSingleKind.map_fd
to_arg_single_kind EbpfArgumentType.const_ptr_to_map = some ArgSingleKind.map_fd
to_arg_single_kind EbpfArgumentType.ptr_to_map_of_programs = some ArgSingleKind.map_fd_programs
to_arg_single_kind EbpfArgumentType.ptr_to_map_key = some ArgSingleKind.ptr_to_map_key
to_arg_single_kind EbpfArgumentType.ptr_to_map_value = some ArgSingleKind.ptr_to_map_value
to_arg_single_kind EbpfArgumentType.ptr_to_uninit_map_value = some ArgSingleKind.ptr_to_map_value
to_arg_single_kind EbpfArgumentType.ptr_to_ctx = some ArgSingleKind.ptr_to_ctx
to_arg_single_kind EbpfArgumentType.ptr_to_ctx_or_null = some ArgSingleKind.ptr_to_ctx
to_arg_single_kind EbpfArgumentType.ptr_to_func = some ArgSingleKind.ptr_to_func
to_arg_single_kind _ = none

unfoldable pub to_arg_pair_kind : EbpfArgumentType → Option ArgPairKind
to_arg_pair_kind EbpfArgumentType.ptr_to_readable_mem = some ArgPairKind.ptr_to_readable_mem
to_arg_pair_kind EbpfArgumentType.ptr_to_readable_mem_or_null = some ArgPairKind.ptr_to_readable_mem
to_arg_pair_kind EbpfArgumentType.ptr_to_readonly_mem = some ArgPairKind.ptr_to_readable_mem
to_arg_pair_kind EbpfArgumentType.ptr_to_readonly_mem_or_null = some ArgPairKind.ptr_to_readable_mem
to_arg_pair_kind EbpfArgumentType.ptr_to_writable_mem = some ArgPairKind.ptr_to_writable_mem
to_arg_pair_kind EbpfArgumentType.ptr_to_writable_mem_or_null = some ArgPairKind.ptr_to_writable_mem
to_arg_pair_kind _ = none

abbrev returns_pointer : TypeEncoding → Bool → CallContract → Option CallContract
returns_pointer te nullable c =
    some (record c { return_ptr_type = some te; return_nullable = nullable })

-- `none` is the outcome `Unavailable`, on which the contract is left alone.
unfoldable pub apply_return_type : EbpfReturnType → CallContract → Option CallContract
apply_return_type EbpfReturnType.integer c = some c
apply_return_type EbpfReturnType.ptr_to_map_value_or_null c = some c
apply_return_type EbpfReturnType.integer_or_no_return_if_succeed c = some c
apply_return_type EbpfReturnType.ptr_to_sock_common_or_null c =
    returns_pointer TypeEncoding.t_socket true c
apply_return_type EbpfReturnType.ptr_to_socket_or_null c =
    returns_pointer TypeEncoding.t_socket true c
apply_return_type EbpfReturnType.ptr_to_tcp_socket_or_null c =
    returns_pointer TypeEncoding.t_socket true c
apply_return_type EbpfReturnType.ptr_to_alloc_mem_or_null c =
    returns_pointer TypeEncoding.t_alloc_mem true c
apply_return_type EbpfReturnType.ptr_to_btf_id_or_null c =
    returns_pointer TypeEncoding.t_btf_id true c
apply_return_type EbpfReturnType.ptr_to_mem_or_btf_id_or_null c =
    returns_pointer TypeEncoding.t_btf_id true c
apply_return_type EbpfReturnType.ptr_to_btf_id c = returns_pointer TypeEncoding.t_btf_id false c
apply_return_type EbpfReturnType.ptr_to_mem_or_btf_id c =
    returns_pointer TypeEncoding.t_btf_id false c
apply_return_type EbpfReturnType.unsupported c = none

pub data ArgOutcome : Type 0 where
  single : ArgOutcome
  pair : ArgOutcome
  stop : ArgOutcome
  unavailable : ArgOutcome
  mismatched_size : ArgOutcome

unfoldable pub padded_args :
    EbpfArgumentType
    → EbpfArgumentType
    → EbpfArgumentType
    → EbpfArgumentType
    → EbpfArgumentType
    → List EbpfArgumentType
padded_args a0 a1 a2 a3 a4 =
    EbpfArgumentType.dont_care ∷ a0 ∷ a1 ∷ a2 ∷ a3 ∷ a4 ∷ EbpfArgumentType.dont_care ∷ []

abbrev pub push_single : ArgSingleKind → Bool → ℕ → CallContract → CallContract
push_single kind or_null i c = record c {
  singles = c.singles ++ (record { kind = kind; or_null = or_null; reg = i } ∷ []);
}

abbrev pub or_else {ℓ} : {A : Type ℓ} → Option A → A → A
or_else none a = a
or_else (some a) b = a

abbrev pub mapped_single : EbpfArgumentType → Bool → ℕ → CallContract → CallContract × ArgOutcome
unfolding to_arg_single_kind
mapped_single arg or_null i c = (
  push_single (or_else (to_arg_single_kind arg) ArgSingleKind.anything) or_null i c,
  ArgOutcome.single,
)

-- Whether a size may be zero, if the argument is one.
abbrev pub size_of : EbpfArgumentType → Option Bool
size_of EbpfArgumentType.const_size = some false
size_of EbpfArgumentType.const_size_or_zero = some true
size_of _ = none

abbrev pub push_pair :
    EbpfArgumentType → Bool → ℕ → Option Bool → CallContract → CallContract × ArgOutcome
unfolding to_arg_pair_kind
push_pair arg or_null i none c = (c, ArgOutcome.mismatched_size)
push_pair arg or_null i (some can_be_zero) c = (
  record c {
    pairs =
        c.pairs
        ++ (record {
          kind = or_else (to_arg_pair_kind arg) ArgPairKind.ptr_to_readable_mem;
          or_null = or_null;
          mem = i;
          size = i + 1;
          can_be_zero = can_be_zero;
        }
            ∷ []);
  },
  ArgOutcome.pair,
)

-- The read of the next slot is in range for every slot but the last of the padded array.
abbrev pub pointer_and_size :
    EbpfArgumentType
    → Bool
    → ℕ
    → Option EbpfArgumentType
    → CallContract
    → Option (CallContract × ArgOutcome)
unfolding to_arg_pair_kind
pointer_and_size arg or_null i none c = none
pointer_and_size arg or_null i (some next) c = some (push_pair arg or_null i (size_of next) c)

-- The `match` on the argument, with the one that follows it.
unfoldable pub process :
    EbpfArgumentType
    → Option EbpfArgumentType
    → ℕ
    → CallContract
    → Option (CallContract × ArgOutcome)
unfolding to_arg_single_kind to_arg_pair_kind
process EbpfArgumentType.dont_care next i c = some (c, ArgOutcome.stop)
process EbpfArgumentType.anything next i c =
    some (mapped_single EbpfArgumentType.anything false i c)
process EbpfArgumentType.const_size next i c = some (c, ArgOutcome.mismatched_size)
process EbpfArgumentType.const_size_or_zero next i c = some (c, ArgOutcome.mismatched_size)
process EbpfArgumentType.ptr_to_ctx next i c =
    some (mapped_single EbpfArgumentType.ptr_to_ctx false i c)
process EbpfArgumentType.ptr_to_map next i c =
    some (mapped_single EbpfArgumentType.ptr_to_map false i c)
process EbpfArgumentType.ptr_to_map_of_programs next i c =
    some (mapped_single EbpfArgumentType.ptr_to_map_of_programs false i c)
process EbpfArgumentType.ptr_to_map_key next i c =
    some (mapped_single EbpfArgumentType.ptr_to_map_key false i c)
process EbpfArgumentType.ptr_to_map_value next i c =
    some (mapped_single EbpfArgumentType.ptr_to_map_value false i c)
process EbpfArgumentType.ptr_to_readable_mem next i c =
    pointer_and_size EbpfArgumentType.ptr_to_readable_mem false i next c
process EbpfArgumentType.ptr_to_readable_mem_or_null next i c =
    pointer_and_size EbpfArgumentType.ptr_to_readable_mem_or_null true i next c
process EbpfArgumentType.ptr_to_writable_mem next i c =
    pointer_and_size EbpfArgumentType.ptr_to_writable_mem false i next c
process EbpfArgumentType.ptr_to_stack next i c =
    some (mapped_single EbpfArgumentType.ptr_to_stack false i c)
process EbpfArgumentType.ptr_to_stack_or_null next i c =
    some (mapped_single EbpfArgumentType.ptr_to_stack_or_null true i c)
process EbpfArgumentType.ptr_to_ctx_or_null next i c =
    some (mapped_single EbpfArgumentType.ptr_to_ctx_or_null true i c)
process EbpfArgumentType.ptr_to_writable_mem_or_null next i c =
    pointer_and_size EbpfArgumentType.ptr_to_writable_mem_or_null true i next c
process EbpfArgumentType.ptr_to_btf_id_sock_common next i c =
    some (push_single ArgSingleKind.ptr_to_socket false i c, ArgOutcome.single)
process EbpfArgumentType.ptr_to_spin_lock next i c =
    some (push_single ArgSingleKind.ptr_to_spin_lock false i c, ArgOutcome.single)
process EbpfArgumentType.ptr_to_sock_common next i c =
    some (push_single ArgSingleKind.ptr_to_socket false i c, ArgOutcome.single)
process EbpfArgumentType.ptr_to_btf_id next i c =
    some (push_single ArgSingleKind.ptr_to_btf_id false i c, ArgOutcome.single)
process EbpfArgumentType.ptr_to_long next i c =
    some (push_single ArgSingleKind.ptr_to_writable_long false i c, ArgOutcome.single)
process EbpfArgumentType.ptr_to_int next i c =
    some (push_single ArgSingleKind.ptr_to_writable_int false i c, ArgOutcome.single)
process EbpfArgumentType.ptr_to_const_str next i c = some (c, ArgOutcome.unavailable)
process EbpfArgumentType.ptr_to_func next i c =
    some (mapped_single EbpfArgumentType.ptr_to_func false i c)
process EbpfArgumentType.const_alloc_size_or_zero next i c = some (
  push_single ArgSingleKind.const_size_or_zero false i (record c { alloc_size_reg = some i }),
  ArgOutcome.single,
)
process EbpfArgumentType.ptr_to_alloc_mem next i c =
    some (push_single ArgSingleKind.ptr_to_alloc_mem false i c, ArgOutcome.single)
process EbpfArgumentType.ptr_to_timer next i c =
    some (push_single ArgSingleKind.ptr_to_timer false i c, ArgOutcome.single)
process EbpfArgumentType.ptr_to_percpu_btf_id next i c =
    some (push_single ArgSingleKind.ptr_to_btf_id false i c, ArgOutcome.single)
process EbpfArgumentType.ptr_to_readonly_mem next i c =
    pointer_and_size EbpfArgumentType.ptr_to_readonly_mem false i next c
process EbpfArgumentType.ptr_to_readonly_mem_or_null next i c =
    pointer_and_size EbpfArgumentType.ptr_to_readonly_mem_or_null true i next c
process EbpfArgumentType.ptr_to_uninit_map_value next i c =
    some (mapped_single EbpfArgumentType.ptr_to_uninit_map_value false i c)
process EbpfArgumentType.const_ptr_to_map next i c =
    some (mapped_single EbpfArgumentType.const_ptr_to_map false i c)
process EbpfArgumentType.unsupported next i c = some (c, ArgOutcome.unavailable)

-- A read out of range panics.
unfoldable pub process_arg :
    CallContract → List EbpfArgumentType → ℕ → Option (CallContract × ArgOutcome)
unfolding process
process_arg c args i = get_elem? args i >>= λ arg. process arg (get_elem? args (i + 1)) i c
