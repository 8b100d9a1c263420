-- ===== src/Ir/Assertions.antt =====
-- src/ir/assertions.rs: the checks that an instruction needs, without those of calls, which are in
-- the module Calls. A panic is `none`.
use prevail_rust.Base.Tests.{
  ℕ, ◌+◌, ◌-◌, ◌^◌, Option, none, some, Bool, true, false, not, ◌&&◌, ◌||◌, List, [], ◌∷◌, ◌++◌,
  ◌==◌, ◌>>=◌, if◌then◌else◌,
}
use prevail_rust.Base.Int.{ℤ, pos, negsuc, ltb_ℤ, leb_ℤ, neg_ℤ, ◌+ℤ◌}
use prevail_rust.Cfg.Label.{Label, call_stack_depth}
use prevail_rust.Cfg.Label as CfgLabel
use prevail_rust.Crab.TypeEncoding.Sets.{TypeGroup}
use prevail_rust.Ir.Isa.{Reg, AccessSize, access_size_bytes, r10_stack_pointer}
use prevail_rust.Ir.Syntax.{
  BinOp, ConditionOp, Value, Bin, Un, Mem, Atomic, Condition, Jmp, PseudoAddressKind, Instruction,
}
use prevail_rust.Ir.Assertion.{AccessType, ValidAccess, Assertion}
use prevail_rust.Ir.Config.{i32_checked, EbpfRuntimeConfig, ProgramInfo}
use prevail_rust.Ir.Assertions.Calls.{assertions_call}
use prevail_rust.Ir.Assertions.Common.{
  zero_offset_ctx, make_valid_access, make_valid_access_default, number,
}
pub mod Common
pub mod Calls
pub mod Memory
mod Tests

abbrev r6 : Reg
r6 = 6

abbrev r0_return_value : Reg
r0_return_value = 0

-- Kinds of pseudo loads other than the address of code do not reach this stage.
unfoldable pub assertions_load_pseudo : PseudoAddressKind → Option (List Assertion)
assertions_load_pseudo PseudoAddressKind.code_addr = some []
assertions_load_pseudo PseudoAddressKind.variable_addr = none
assertions_load_pseudo PseudoAddressKind.map_by_idx = none
assertions_load_pseudo PseudoAddressKind.map_value_by_idx = none

unfoldable pub assertions_packet : List Assertion
unfolding zero_offset_ctx
assertions_packet = zero_offset_ctx r6 false

abbrev is_empty : CfgLabel.Text → Bool
is_empty [] = true
is_empty (c ∷ cs) = false

abbrev frame_prefix : CfgLabel.Text → Option Label → CfgLabel.Text
frame_prefix own none = own
frame_prefix own (some l) = l.stack_frame_prefix

-- Only the outermost frame has to return a number.
unfoldable pub assertions_exit : CfgLabel.Text → Option Label → List Assertion
assertions_exit own label =
    if is_empty (frame_prefix own label) then number r0_return_value ∷ [] else []

unfoldable pub assertions_callx : Reg → List Assertion
assertions_callx func = number func ∷ Assertion.func_constraint func ∷ []

abbrev allows_pointers : ConditionOp → Bool
allows_pointers ConditionOp.slt = false
allows_pointers ConditionOp.sle = false
allows_pointers ConditionOp.sgt = false
allows_pointers ConditionOp.sge = false
allows_pointers _ = true

abbrev is_equality : ConditionOp → Bool
is_equality ConditionOp.eq = true
is_equality ConditionOp.ne = true
is_equality _ = false

abbrev explicate_right : Condition → Option Label → Value → List Assertion
explicate_right cond label (Value.imm v) =
    if not (v == 0)
    then number cond.left ∷ []
    else (if allows_pointers cond.op && cond.is64 then [] else number cond.left ∷ [])
      ++ (make_valid_access_default label cond.left ∷ [])
explicate_right cond label (Value.reg right) =
    make_valid_access_default label cond.left
    ∷ make_valid_access_default label right
    ∷ ((if is_equality cond.op
          then []
          else Assertion.type_constraint cond.left TypeGroup.ptr_or_num ∷ [])
        ++ (Assertion.comparable cond.left right false ∷ []))

unfoldable pub explicate : Condition → ProgramInfo → Option Label → List Assertion
explicate cond info label =
    if info.program_type.is_privileged then [] else explicate_right cond label cond.right

unfoldable pub assertions_assume : Condition → Bool → ProgramInfo → Option Label → List Assertion
unfolding explicate
assertions_assume cond is_implicit info label =
    if not is_implicit then explicate cond info label else []

abbrev on_condition : Option Condition → ProgramInfo → Option Label → List Assertion
unfolding explicate
on_condition none info label = []
on_condition (some cond) info label = explicate cond info label

unfoldable pub assertions_jmp : Jmp → ProgramInfo → Option Label → List Assertion
unfolding explicate on_condition
assertions_jmp ins info label = on_condition ins.cond info label

abbrev direction : Bool → AccessType
direction is_load = if is_load then AccessType.read else AccessType.write

abbrev pub mem_access : Option Label → Mem → Assertion
mem_access label ins =
    make_valid_access label ins.access.basereg ins.access.offset
      (Value.imm (access_size_bytes ins.access.width)) false (direction ins.is_load)

-- Whether an access through r10 leaves the stack frame.
unfoldable pub is_off_stack : ℤ → ℕ → ℤ → Option Bool
is_off_stack offset width stack_size = i32_checked (neg_ℤ stack_size) >>= λ lowest.
    if ltb_ℤ offset lowest
    then some true
    else i32_checked (offset +ℤ pos width) >>= λ top. some (ltb_ℤ (pos 0) top)

abbrev stored_value : Mem → Value → List Assertion
stored_value ins (Value.imm v) = []
stored_value ins (Value.reg r) =
    if not (access_size_bytes ins.access.width == 8)
    then number r ∷ []
    else Assertion.valid_store ins.access.basereg r ∷ []

unfoldable pub assertions_mem :
    Mem → ProgramInfo → EbpfRuntimeConfig → Option Label → Option (List Assertion)
unfolding is_off_stack
assertions_mem ins info runtime label =
    if ins.access.basereg == r10_stack_pointer
    then (is_off_stack ins.access.offset (access_size_bytes ins.access.width)
          runtime.subprogram_stack_size
        >>= λ off. some (if off then mem_access label ins ∷ [] else []))
    else some (
        Assertion.type_constraint ins.access.basereg TypeGroup.dereferenceable
        ∷ mem_access label ins
        ∷ (if not info.program_type.is_privileged && not ins.is_load
            then stored_value ins ins.value
            else []))

unfoldable pub assertions_atomic : Atomic → Option Label → List Assertion
assertions_atomic ins label =
    number ins.valreg
    ∷ Assertion.type_constraint ins.access.basereg TypeGroup.dereferenceable
    ∷ make_valid_access label ins.access.basereg ins.access.offset
        (Value.imm (access_size_bytes ins.access.width)) false AccessType.write
    ∷ []

unfoldable pub assertions_un : Un → List Assertion
assertions_un ins = number ins.dst ∷ []

abbrev ptr_or_num : Reg → Assertion
ptr_or_num r = Assertion.type_constraint r TypeGroup.ptr_or_num

abbrev division : Bool → Bin → Value → List Assertion
division is_signed ins (Value.imm v) = number ins.dst ∷ []
division is_signed ins (Value.reg src) =
    number ins.dst ∷ Assertion.valid_divisor src is_signed ins.is64 ∷ []

abbrev moved : Value → List Assertion
moved (Value.imm v) = []
moved (Value.reg src) = number src ∷ []

-- The `match` on the operation and the operand.
abbrev by_op : BinOp → Bin → Value → List Assertion
by_op BinOp.mov ins v = if not ins.is64 then moved v else []
by_op BinOp.movsx8 ins v = moved v
by_op BinOp.movsx16 ins v = moved v
by_op BinOp.movsx32 ins v = moved v
by_op BinOp.add ins (Value.imm v) = ptr_or_num ins.dst ∷ []
by_op BinOp.add ins (Value.reg src) =
    ptr_or_num ins.dst
    ∷ ptr_or_num src
    ∷ Assertion.addable src ins.dst
    ∷ Assertion.addable ins.dst src
    ∷ []
by_op BinOp.sub ins (Value.imm v) = ptr_or_num ins.dst ∷ []
by_op BinOp.sub ins (Value.reg src) =
    ptr_or_num ins.dst ∷ Assertion.comparable ins.dst src true ∷ []
by_op BinOp.udiv ins v = division false ins v
by_op BinOp.umod ins v = division false ins v
by_op BinOp.sdiv ins v = division true ins v
by_op BinOp.smod ins v = division true ins v
by_op _ ins (Value.imm v) = number ins.dst ∷ []
by_op _ ins (Value.reg src) = number ins.dst ∷ number src ∷ []

unfoldable pub assertions_bin : Bin → List Assertion
assertions_bin ins = by_op ins.op ins ins.v

unfoldable pub get_assertions :
    Instruction → ProgramInfo → EbpfRuntimeConfig → Option Label → Option (List Assertion)
unfolding assertions_bin assertions_un assertions_load_pseudo assertions_callx assertions_exit
    assertions_jmp assertions_mem assertions_packet assertions_atomic assertions_assume
    assertions_call
get_assertions (Instruction.undefined opcode) info runtime label = some []
get_assertions (Instruction.bin i) info runtime label = some (assertions_bin i)
get_assertions (Instruction.un i) info runtime label = some (assertions_un i)
get_assertions (Instruction.load_map_fd dst fd) info runtime label = some []
get_assertions (Instruction.load_map_address dst fd offset) info runtime label = some []
get_assertions (Instruction.load_pseudo dst kind imm next) info runtime label =
    assertions_load_pseudo kind
get_assertions (Instruction.call c) info runtime label = assertions_call c info label
get_assertions (Instruction.call_local target prefix) info runtime label = some []
get_assertions (Instruction.callx func) info runtime label = some (assertions_callx func)
get_assertions (Instruction.call_btf id module_id) info runtime label = none
get_assertions (Instruction.exit prefix) info runtime label = some (assertions_exit prefix label)
get_assertions (Instruction.jmp i) info runtime label = some (assertions_jmp i info label)
get_assertions (Instruction.mem i) info runtime label = assertions_mem i info runtime label
get_assertions (Instruction.packet i) info runtime label = some assertions_packet
get_assertions (Instruction.atomic i) info runtime label = some (assertions_atomic i label)
get_assertions (Instruction.assume cond is_implicit) info runtime label =
    some (assertions_assume cond is_implicit info label)
get_assertions (Instruction.increment_loop_counter name) info runtime label =
    some (Assertion.bounded_loop_count name ∷ [])
