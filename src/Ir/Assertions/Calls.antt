-- ===== src/Ir/Assertions/Calls.antt =====
-- src/ir/assertions.rs: the assertions of a call, from its contract.
use Prim.Native.Nat.{bit_and}
use prevail_rust.Base.Tests.{
  ℕ, zero, suc, ◌+◌, ◌^◌, Option, none, some, Bool, true, false, not, List, [], ◌∷◌, ◌++◌, ◌==◌,
  ◌>>=◌, if◌then◌else◌,
}
use prevail_rust.Base.Int.{pos}
use prevail_rust.Cfg.Label.{Label, Text}
use prevail_rust.Crab.TypeEncoding.Sets.{TypeGroup}
use prevail_rust.Ir.Isa.{Reg}
use prevail_rust.Ir.Syntax.{Value}
use prevail_rust.Ir.Contract.{ArgSingleKind, ArgSingle, ArgPairKind, ArgPair, CallContract, Call}
use prevail_rust.Ir.Assertion.{AccessType, Assertion}
use prevail_rust.Ir.Assertions.Common.{number, zero_offset_ctx, make_valid_access}
use prevail_rust.Ir.Config.{ProgramInfo}
pub mod Arguments
pub mod Registers

abbrev typed : Reg → TypeGroup → List Assertion
typed r group = Assertion.type_constraint r group ∷ []

-- A key or a value belongs to the map of an earlier argument; without one the source panics.
abbrev pub key_or_value : Bool → Reg → Option Reg → Option (List Assertion × Option Reg)
key_or_value key reg none = none
key_or_value key reg (some map_fd_reg) = some (
  Assertion.type_constraint reg TypeGroup.mem
      ∷ Assertion.valid_map_key_value reg map_fd_reg key
      ∷ [],
  some map_fd_reg,
)

abbrev writable : Option Label → Reg → ℕ → List Assertion
writable label reg width =
    Assertion.type_constraint reg TypeGroup.mem
    ∷ make_valid_access label reg (pos 0) (Value.imm width) false AccessType.write
    ∷ []

-- One argument: its assertions, and the map register afterwards.
unfoldable pub single_assertions :
    ProgramInfo
    → Option Label
    → (map_fd_reg : Option Reg) → ArgSingleKind
    → (or_null : Bool) → Reg
    → Option (List Assertion × Option Reg)
unfolding zero_offset_ctx
single_assertions info label fd ArgSingleKind.anything or_null reg =
    some (if not info.program_type.is_privileged then number reg ∷ [] else [], fd)
single_assertions info label fd ArgSingleKind.map_fd_programs or_null reg =
    some (typed reg TypeGroup.map_fd_programs, fd)
single_assertions info label fd ArgSingleKind.map_fd or_null reg =
    some (typed reg TypeGroup.map_fd, some reg)
single_assertions info label fd ArgSingleKind.ptr_to_map_key or_null reg = key_or_value true reg fd
single_assertions info label fd ArgSingleKind.ptr_to_map_value or_null reg =
    key_or_value false reg fd
single_assertions info label fd ArgSingleKind.ptr_to_stack or_null reg =
    some (typed reg (if or_null then TypeGroup.stack_or_num else TypeGroup.stack), fd)
single_assertions info label fd ArgSingleKind.ptr_to_ctx or_null reg =
    some (zero_offset_ctx reg or_null, fd)
single_assertions info label fd ArgSingleKind.ptr_to_func or_null reg =
    some
      (Assertion.type_constraint reg TypeGroup.func ∷ Assertion.valid_callback_target reg ∷ [], fd)
single_assertions info label fd ArgSingleKind.ptr_to_socket or_null reg =
    some (typed reg TypeGroup.socket, fd)
single_assertions info label fd ArgSingleKind.ptr_to_btf_id or_null reg =
    some (typed reg TypeGroup.btf_id, fd)
single_assertions info label fd ArgSingleKind.ptr_to_alloc_mem or_null reg =
    some (typed reg TypeGroup.alloc_mem, fd)
single_assertions info label fd ArgSingleKind.ptr_to_spin_lock or_null reg =
    some (typed reg TypeGroup.mem, fd)
single_assertions info label fd ArgSingleKind.ptr_to_timer or_null reg =
    some (typed reg TypeGroup.mem, fd)
single_assertions info label fd ArgSingleKind.const_size_or_zero or_null reg =
    some (number reg ∷ Assertion.valid_size reg true ∷ [], fd)
single_assertions info label fd ArgSingleKind.ptr_to_writable_long or_null reg =
    some (writable label reg 8, fd)
single_assertions info label fd ArgSingleKind.ptr_to_writable_int or_null reg =
    some (writable label reg 4, fd)

-- The loop over the single arguments, with the assertions so far.
unfoldable pub singles_loop :
    ProgramInfo
    → Option Label
    → List ArgSingle
    → List Assertion
    → Option Reg
    → Option (List Assertion × Option Reg)
unfolding single_assertions
singles_loop info label [] res fd = some (res, fd)
singles_loop info label (arg ∷ args) res fd =
    single_assertions info label fd arg.kind arg.or_null arg.reg >>= λ step.
    singles_loop info label args (res ++ step.0) step.1

unfoldable pub map_type_assertions : Option Reg → Call → List Assertion
map_type_assertions none ins = []
map_type_assertions (some fd) ins =
    if not (ins.contract.allowed_map_types == 0)
    then Assertion.valid_map_type fd ins.contract.allowed_map_types ins.name ∷ []
    else []

abbrev access_of : ArgPairKind → AccessType
access_of ArgPairKind.ptr_to_readable_mem = AccessType.read
access_of ArgPairKind.ptr_to_writable_mem = AccessType.write

unfoldable pub pair_assertions : Option Label → ArgPair → List Assertion
pair_assertions label arg =
    number arg.size
    ∷ Assertion.valid_size arg.size arg.can_be_zero
    ∷ Assertion.type_constraint arg.mem
        (if arg.or_null then TypeGroup.mem_or_num else TypeGroup.mem)
    ∷ make_valid_access label arg.mem (pos 0) (Value.reg arg.size) arg.or_null (access_of arg.kind)
    ∷ []

unfoldable pub pairs_assertions : Option Label → List ArgPair → List Assertion
unfolding pair_assertions
pairs_assertions label [] = []
pairs_assertions label (arg ∷ args) = pair_assertions label arg ++ pairs_assertions label args

-- Bit i of the mask covers the register i + 1; the loop is over the positions from i on.
unfoldable pub zero_args_assertions : ℕ → ℕ → ℕ → List Assertion
zero_args_assertions zero i mask = []
zero_args_assertions (suc rounds) i mask =
    (if not (bit_and mask (2 ^ i) == 0)
      then number (i + 1) ∷ Assertion.valid_arg_zero (i + 1) ∷ []
      else [])
    ++ zero_args_assertions rounds (i + 1) mask

unfoldable pub assertions_call : Call → ProgramInfo → Option Label → Option (List Assertion)
unfolding singles_loop map_type_assertions pairs_assertions zero_args_assertions
assertions_call ins info label = singles_loop info label ins.contract.singles [] none >>= λ step.
    some (
      step.0
      ++ (map_type_assertions step.1 ins
          ++ (pairs_assertions label ins.contract.pairs
              ++ zero_args_assertions 5 0 ins.contract.zero_args_mask)))
