-- ===== src/Ir/Unmarshal/Jumps.antt =====
-- src/ir/unmarshal.rs: `make_jmp`, the decoding of jumps, calls and exits.
use Prim.Native.Nat.{bit_and}
use prevail_rust.Base.Tests.{
  ℕ, zero, suc, ◌+◌, ◌/◌, ◌%◌, ◌^◌, Option, none, some, Bool, true, false, not, ◌&&◌, ◌||◌, List,
  [], ◌∷◌, ◌++◌, ltb, leb, ◌==◌, if◌then◌else◌,
}
use prevail_rust.Base.Decimal.{to_string}
use prevail_rust.Base.Lists.{length}
use prevail_rust.Base.Int.{ℤ, pos, negsuc, ltb_ℤ, eqb_ℤ, ◌+ℤ◌}
use prevail_rust.Cfg.Label.{Label, Text}
use prevail_rust.Cfg.Label
use prevail_rust.Ir.Isa.{
  EbpfInst, JmpOp, Reg, jmp_op_from_opcode, inst_dst, inst_src, inst_src_reg, inst_cls_mask,
  r10_stack_pointer, bits, signed,
}
use prevail_rust.Ir.Config.{ProgramInfo}
use prevail_rust.Ir.Contract.{Call, CallKind, Reason, default_contract}
use prevail_rust.Ir.CallProto.Prototype.{EbpfPlatform, HelperPrototype, make_call}
use prevail_rust.Ir.Syntax.{Value, Instruction}
use prevail_rust.Ir.Unmarshal.{
  Message, Outcome, ok, err, panic, sign_extend, invalid, jmp_op_to_cond,
}
pub mod Targets

abbrev inst_cls_jmp : ℕ
inst_cls_jmp = 0x05

abbrev inst_cls_jmp32 : ℕ
inst_cls_jmp32 = 0x06

abbrev inst_op_ja32 : ℕ
inst_op_ja32 = 0x06

abbrev inst_call_local : ℕ
inst_call_local = 0x1

abbrev inst_call_btf_helper : ℕ
inst_call_btf_helper = 0x2

-- `if failed { return Err(..); }`.
unfoldable pub reject_if {ℓ} : {A : Type ℓ} → Bool → ℕ → Message → Outcome A → Outcome A
reject_if true pc message rest = invalid pc message
reject_if false pc message rest = rest

abbrev pub has_src_reg : EbpfInst → Bool
has_src_reg inst = not (bit_and inst.opcode inst_src_reg == 0)

abbrev is_class : ℕ → EbpfInst → Bool
is_class class inst = bit_and inst.opcode inst_cls_mask == class

abbrev is_nonzero : ℤ → Bool
is_nonzero n = not (eqb_ℤ n (pos 0))

-- `(pc as isize + 1 + offset as isize) as usize`
abbrev pub target_pc : ℕ → ℤ → ℕ
target_pc pc offset = bits 64 (pos pc +ℤ pos 1 +ℤ offset)

-- `Label::new(target_pc as i32)`
abbrev pub label_at : ℕ → Label
label_at target = Label.new (signed 32 (target % 2 ^ 32))

unfoldable pub call_local : ℕ → EbpfInst → ℕ → Outcome Instruction
call_local pc inst count =
    let target = target_pc pc inst.imm in
    reject_if (is_nonzero inst.offset) pc (Message.nonzero_offset_for inst.opcode) (
      reject_if (has_src_reg inst) pc (Message.bad_instruction inst.opcode) (
        reject_if (not (inst_dst inst == 0)) pc (Message.nonzero_dst_for_register inst.opcode) (
          reject_if (leb count target) pc Message.jump_out_of_bounds
            (ok (Instruction.call_local (label_at target) [])))))

unfoldable pub immediate_register : ℕ → EbpfInst → Outcome Instruction
immediate_register pc inst =
    reject_if (ltb 0 (inst_dst inst)) pc (Message.nonzero_imm_for inst.opcode) (
      reject_if (ltb_ℤ inst.imm (pos 0) || ltb_ℤ (pos r10_stack_pointer) inst.imm) pc
        Message.bad_register (ok (Instruction.callx (bits 8 inst.imm))))

-- A nonzero immediate names the register in place of the `dst` field.
abbrev pub callx_register : Bool → ℕ → EbpfInst → Outcome Instruction
callx_register true pc inst = immediate_register pc inst
callx_register false pc inst = ok (Instruction.callx (inst_dst inst))

unfoldable pub callx : ℕ → EbpfInst → Outcome Instruction
unfolding immediate_register
callx pc inst = reject_if (not (inst_src inst == 0)) pc (Message.bad_instruction inst.opcode) (
    reject_if (is_nonzero inst.offset) pc (Message.nonzero_offset_for inst.opcode) (
      reject_if (ltb r10_stack_pointer (inst_dst inst)) pc Message.bad_register
        (callx_register (is_nonzero inst.imm) pc inst)))

unfoldable pub call_btf : ℕ → EbpfInst → Outcome Instruction
call_btf pc inst =
    reject_if (not (inst_dst inst == 0)) pc (Message.nonzero_dst_for_register inst.opcode) (
      reject_if (ltb_ℤ inst.offset (pos 0)) pc (Message.negative_module_for inst.opcode)
        (ok (Instruction.call_btf inst.imm inst.offset)))

abbrev unavailable : ℤ → Text → Call
unavailable imm name = record {
  func = imm;
  kind = CallKind.helper;
  module_id = pos 0;
  name = name;
  is_supported = false;
  unsupported_reason = Reason.helper_unavailable;
  contract = default_contract;
  stack_frame_prefix = [];
}

abbrev pub contains : List ℕ → ℕ → Bool
contains [] n = false
contains (x ∷ xs) n = (x == n) || contains xs n

abbrev builtin_or_unavailable : ℤ → Option Call → Call
builtin_or_unavailable imm none = unavailable imm (to_string imm)
builtin_or_unavailable imm (some call) = call

abbrev name_of_prototype : ℤ → Option HelperPrototype → Text
name_of_prototype imm none = to_string imm
name_of_prototype imm (some proto) = proto.name

abbrev pub called : Option Call → Outcome Instruction
called none = panic
called (some call) = ok (Instruction.call call)

unfoldable pub resolve_call : ℕ → ℤ → ProgramInfo → EbpfPlatform → Option Call
unfolding to_string
resolve_call pc imm info platform =
    if contains info.builtin_call_offsets pc
    then some (builtin_or_unavailable imm (platform.get_builtin_call imm))
    else if not (platform.is_helper_usable imm)
    then some (unavailable imm (name_of_prototype imm (platform.try_get_helper_prototype imm)))
    else make_call imm platform

unfoldable pub call_helper : ℕ → EbpfInst → ProgramInfo → EbpfPlatform → Outcome Instruction
unfolding resolve_call
call_helper pc inst info platform =
    reject_if (not (inst_dst inst == 0)) pc (Message.nonzero_dst_for_register inst.opcode) (
      reject_if (is_nonzero inst.offset) pc (Message.nonzero_offset_for inst.opcode)
        (called (resolve_call pc inst.imm info platform)))

unfoldable pub make_call_jmp : ℕ → EbpfInst → ℕ → ProgramInfo → EbpfPlatform → Outcome Instruction
unfolding call_local callx call_btf call_helper
make_call_jmp pc inst count info platform =
    reject_if (not (is_class inst_cls_jmp inst)) pc (Message.bad_instruction inst.opcode) (
      reject_if (ltb inst_call_btf_helper (inst_src inst)) pc (Message.bad_instruction inst.opcode)
        (if inst_src inst == inst_call_local
          then call_local pc inst count
          else if has_src_reg inst
          then callx pc inst
          else if inst_src inst == inst_call_btf_helper
          then call_btf pc inst
          else call_helper pc inst info platform))

unfoldable pub make_exit : ℕ → EbpfInst → Outcome Instruction
make_exit pc inst =
    reject_if (not (is_class inst_cls_jmp inst) || has_src_reg inst) pc
      (Message.bad_instruction inst.opcode)
      (reject_if (not (inst_src inst == 0)) pc (Message.bad_instruction inst.opcode) (
        reject_if (not (inst_dst inst == 0)) pc (Message.nonzero_dst_for_register inst.opcode) (
          reject_if (is_nonzero inst.imm) pc (Message.nonzero_imm_for inst.opcode) (
            reject_if (is_nonzero inst.offset) pc (Message.nonzero_offset_for inst.opcode)
              (ok (Instruction.exit []))))))

unfoldable pub make_ja : ℕ → EbpfInst → ℕ → Outcome Instruction
make_ja pc inst count =
    let target = target_pc pc (if inst.opcode == inst_op_ja32 then inst.imm else inst.offset) in
    reject_if (not (is_class inst_cls_jmp inst) && not (is_class inst_cls_jmp32 inst)) pc
      (Message.bad_instruction inst.opcode)
      (reject_if (has_src_reg inst) pc (Message.bad_instruction inst.opcode) (
        reject_if (is_class inst_cls_jmp inst && is_nonzero inst.imm) pc
          (Message.nonzero_imm_for inst.opcode)
          (reject_if (is_class inst_cls_jmp32 inst && is_nonzero inst.offset) pc
            (Message.nonzero_offset_for inst.opcode)
            (reject_if (not (inst_dst inst == 0)) pc (Message.nonzero_dst_for_register inst.opcode)
              (reject_if (not (inst_src inst == 0)) pc (Message.bad_instruction inst.opcode) (
                reject_if (leb count target) pc Message.jump_out_of_bounds
                  (ok (Instruction.jmp (record { cond = none; target = label_at target })))))))))

unfoldable pub make_conditional : ℕ → EbpfInst → ℕ → JmpOp → Outcome Instruction
unfolding jmp_op_to_cond sign_extend
make_conditional pc inst count op =
    let target = target_pc pc inst.offset in
    reject_if (not (has_src_reg inst) && not (inst_src inst == 0)) pc
      (Message.bad_instruction inst.opcode)
      (reject_if (has_src_reg inst && is_nonzero inst.imm) pc (Message.nonzero_imm_for inst.opcode)
        (reject_if (leb count target) pc Message.jump_out_of_bounds (
          reject_if (ltb r10_stack_pointer (inst_dst inst)) pc Message.bad_register (
            reject_if (has_src_reg inst && ltb r10_stack_pointer (inst_src inst)) pc
              Message.bad_register
              (ok (
                Instruction.jmp (record {
                  cond = some (record {
                    op = jmp_op_to_cond op;
                    left = inst_dst inst;
                    right =
                        if has_src_reg inst
                        then Value.reg (inst_src inst)
                        else Value.imm (sign_extend inst.imm);
                    is64 = is_class inst_cls_jmp inst;
                  });
                  target = label_at target;
                })))))))

-- The `match` on the operation; `count` is the number of slots.
abbrev pub by_jmp_op :
    ℕ → EbpfInst → ℕ → ProgramInfo → EbpfPlatform → Option JmpOp → Outcome Instruction
by_jmp_op pc inst count info platform none = invalid pc (Message.bad_instruction inst.opcode)
by_jmp_op pc inst count info platform (some JmpOp.call) = make_call_jmp pc inst count info platform
by_jmp_op pc inst count info platform (some JmpOp.exit) = make_exit pc inst
by_jmp_op pc inst count info platform (some JmpOp.ja) = make_ja pc inst count
by_jmp_op pc inst count info platform (some op) = make_conditional pc inst count op

unfoldable pub make_jmp :
    ℕ → EbpfInst → List EbpfInst → ProgramInfo → EbpfPlatform → Outcome Instruction
unfolding make_call_jmp make_exit make_ja make_conditional
make_jmp pc inst insts info platform =
    by_jmp_op pc inst (length insts) info platform (jmp_op_from_opcode inst.opcode)
