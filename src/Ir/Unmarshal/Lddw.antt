-- ===== src/Ir/Unmarshal/Lddw.antt =====
-- src/ir/unmarshal.rs: `make_lddw`, the wide load of two slots.
use prevail_rust.Base.Tests.{
  ℕ, ◌-◌, suc, Option, none, some, Bool, true, not, ◌||◌, List, leb, ltb, ◌==◌, if◌then◌else◌,
}
use prevail_rust.Base.Lists.{length, get_elem?}
use prevail_rust.Base.Int.{ℤ, pos, eqb_ℤ}
use prevail_rust.Ir.Isa.{EbpfInst, merge, inst_dst, inst_src, r10_stack_pointer}
use prevail_rust.Ir.Syntax.{BinOp, Value, Instruction, PseudoAddressKind}
use prevail_rust.Ir.Unmarshal.{Message, Outcome, ok, panic, invalid}

abbrev reserved_next : ℕ → EbpfInst → Instruction → Outcome Instruction
reserved_next pc next instruction =
    if not (eqb_ℤ next.imm (pos 0))
    then invalid pc Message.lddw_uses_reserved_fields
    else ok instruction

-- The `match` on the mode in the `src` field.
abbrev pub by_mode : ℕ → EbpfInst → ℤ → EbpfInst → ℕ → Outcome Instruction
by_mode pc inst next_imm next mode =
    let pseudo : PseudoAddressKind → Instruction =
      λ kind. Instruction.load_pseudo (inst_dst inst) kind inst.imm next_imm in
    if mode == 0x0
    then ok (
        Instruction.bin (record {
          op = BinOp.mov;
          dst = inst_dst inst;
          v = Value.imm (merge inst.imm next_imm);
          is64 = true;
          lddw = true;
        }))
    else if mode == 0x1
    then reserved_next pc next (Instruction.load_map_fd (inst_dst inst) inst.imm)
    else if mode == 0x2
    then ok (Instruction.load_map_address (inst_dst inst) inst.imm next_imm)
    else if mode == 0x3
    then reserved_next pc next (pseudo PseudoAddressKind.variable_addr)
    else if mode == 0x4
    then reserved_next pc next (pseudo PseudoAddressKind.code_addr)
    else if mode == 0x5
    then reserved_next pc next (pseudo PseudoAddressKind.map_by_idx)
    else if mode == 0x6
    then ok (pseudo PseudoAddressKind.map_value_by_idx)
    else invalid pc (Message.bad_instruction inst.opcode)

abbrev pub is_not_blank : EbpfInst → Bool
is_not_blank next =
    not (next.opcode == 0)
    || not (inst_dst next == 0)
    || not (inst_src next == 0)
    || not (eqb_ℤ next.offset (pos 0))

abbrev pub with_next : ℕ → EbpfInst → ℤ → Option EbpfInst → Outcome Instruction
with_next pc inst next_imm none = panic
with_next pc inst next_imm (some next) =
    if is_not_blank next
    then invalid pc Message.invalid_lddw
    else if not (eqb_ℤ inst.offset (pos 0))
    then invalid pc (Message.nonzero_offset_for inst.opcode)
    else if ltb r10_stack_pointer (inst_dst inst)
    then invalid pc Message.bad_register
    else by_mode pc inst next_imm next (inst_src inst)

-- `insts.len() - 1` panics on no instructions, as every overflow of a debug build.
unfoldable pub make_lddw : ℕ → EbpfInst → ℤ → List EbpfInst → Outcome Instruction
make_lddw pc inst next_imm insts =
    if length insts == 0
    then panic
    else if leb (length insts - 1) pc
    then invalid pc Message.incomplete_lddw
    else with_next pc inst next_imm (get_elem? insts (suc pc))
