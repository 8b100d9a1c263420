-- ===== src/Ir/Unmarshal/Alu.antt =====
-- src/ir/unmarshal.rs: `get_alu_op` and `make_alu_op`.
use Prim.Native.Nat.{bit_and}
use prevail_rust.Base.Tests.{
  ℕ, Option, none, some, ◌⊎◌, inl, inr, Bool, true, false, not, ◌&&◌, ◌||◌, ltb, ◌==◌,
  if◌then◌else◌,
}
use prevail_rust.Base.Int.{ℤ, pos, ltb_ℤ, eqb_ℤ}
use prevail_rust.Ir.Isa.{
  EbpfInst, AluOp, alu_op_from_opcode, inst_dst, inst_src, inst_src_reg, inst_end_be, inst_cls_mask,
  r10_stack_pointer,
}
use prevail_rust.Ir.Syntax.{BinOp, UnOp, Value, Instruction}
use prevail_rust.Ir.Unmarshal.{
  Message, Outcome, Note, Unmarshaller, ok, err, panic, note, sign_extend, invalid,
}

abbrev pub Operation : Type 0
Operation = BinOp ⊎ UnOp

abbrev inst_cls_alu : ℕ
inst_cls_alu = 0x04

abbrev inst_cls_alu64 : ℕ
inst_cls_alu64 = 0x07

-- `match inst.imm { 16 => .., 32 => .., 64 => .., _ => error }`
abbrev by_width : ℕ → ℤ → UnOp → UnOp → UnOp → Outcome Operation
by_width pc imm at16 at32 at64 =
    if eqb_ℤ imm (pos 16)
    then ok (inr at16)
    else if eqb_ℤ imm (pos 32)
    then ok (inr at32)
    else if eqb_ℤ imm (pos 64)
    then ok (inr at64)
    else invalid pc Message.unsupported_immediate

abbrev get_end_op : ℕ → EbpfInst → Outcome Operation
get_end_op pc inst =
    if not (inst_src inst == 0)
    then invalid pc (Message.bad_instruction inst.opcode)
    else if bit_and inst.opcode inst_cls_mask == inst_cls_alu64
    then (if not (bit_and inst.opcode inst_end_be == 0)
        then invalid pc (Message.bad_instruction inst.opcode)
        else by_width pc inst.imm UnOp.swap16 UnOp.swap32 UnOp.swap64)
    else if not (bit_and inst.opcode inst_end_be == 0)
    then by_width pc inst.imm UnOp.be16 UnOp.be32 UnOp.be64
    else by_width pc inst.imm UnOp.le16 UnOp.le32 UnOp.le64

abbrev get_neg_op : ℕ → EbpfInst → Outcome Operation
get_neg_op pc inst =
    if not (bit_and inst.opcode inst_src_reg == 0) || not (inst_src inst == 0)
    then invalid pc (Message.bad_instruction inst.opcode)
    else if not (eqb_ℤ inst.imm (pos 0))
    then invalid pc (Message.nonzero_imm_for inst.opcode)
    else ok (inr UnOp.neg)

-- The inner `match alu_op`, reached with a zero offset.
abbrev pub get_plain_op : ℕ → EbpfInst → AluOp → Outcome Operation
get_plain_op pc inst AluOp.add = ok (inl BinOp.add)
get_plain_op pc inst AluOp.sub = ok (inl BinOp.sub)
get_plain_op pc inst AluOp.mul = ok (inl BinOp.mul)
get_plain_op pc inst AluOp.or = ok (inl BinOp.or)
get_plain_op pc inst AluOp.and = ok (inl BinOp.and)
get_plain_op pc inst AluOp.lsh = ok (inl BinOp.lsh)
get_plain_op pc inst AluOp.rsh = ok (inl BinOp.rsh)
get_plain_op pc inst AluOp.neg = get_neg_op pc inst
get_plain_op pc inst AluOp.xor = ok (inl BinOp.xor)
get_plain_op pc inst AluOp.arsh = ok (inl BinOp.arsh)
get_plain_op pc inst AluOp.end = get_end_op pc inst
get_plain_op pc inst AluOp.div = panic
get_plain_op pc inst AluOp.mod_ = panic
get_plain_op pc inst AluOp.mov = panic

abbrev get_division_op : ℕ → EbpfInst → BinOp → BinOp → Outcome Operation
get_division_op pc inst unsigned signed =
    if eqb_ℤ inst.offset (pos 0)
    then ok (inl unsigned)
    else if eqb_ℤ inst.offset (pos 1)
    then ok (inl signed)
    else invalid pc (Message.invalid_offset_for inst.opcode)

abbrev get_mov_op : ℕ → EbpfInst → Outcome Operation
get_mov_op pc inst =
    if ltb_ℤ (pos 0) inst.offset && (bit_and inst.opcode inst_src_reg == 0)
    then invalid pc (Message.nonzero_offset_for inst.opcode)
    else if eqb_ℤ inst.offset (pos 0)
    then ok (inl BinOp.mov)
    else if eqb_ℤ inst.offset (pos 8)
    then ok (inl BinOp.movsx8)
    else if eqb_ℤ inst.offset (pos 16)
    then ok (inl BinOp.movsx16)
    else if eqb_ℤ inst.offset (pos 32)
    then ok (inl BinOp.movsx32)
    else invalid pc (Message.invalid_offset_for inst.opcode)

abbrev pub get_zero_offset_op : ℕ → EbpfInst → AluOp → Outcome Operation
get_zero_offset_op pc inst op =
    if not (eqb_ℤ inst.offset (pos 0))
    then invalid pc (Message.nonzero_offset_for inst.opcode)
    else get_plain_op pc inst op

-- The outer `match alu_op`.
abbrev pub get_op : ℕ → EbpfInst → Option AluOp → Outcome Operation
get_op pc inst none = invalid pc (Message.bad_instruction inst.opcode)
get_op pc inst (some AluOp.div) = get_division_op pc inst BinOp.udiv BinOp.sdiv
get_op pc inst (some AluOp.mod_) = get_division_op pc inst BinOp.umod BinOp.smod
get_op pc inst (some AluOp.mov) = get_mov_op pc inst
get_op pc inst (some op) = get_zero_offset_op pc inst op

-- The only note: a 32-bit `arsh` that is accepted.
abbrev pub note_arsh : EbpfInst → Outcome Operation → Unmarshaller → Unmarshaller
note_arsh inst (ok (inl BinOp.arsh)) u =
    if bit_and inst.opcode inst_cls_mask == inst_cls_alu
    then note Note.arsh32_is_not_allowed u
    else u
note_arsh inst _ u = u

unfoldable pub get_alu_op : ℕ → EbpfInst → Unmarshaller → Unmarshaller × Outcome Operation
get_alu_op pc inst u =
    let result = get_op pc inst (alu_op_from_opcode inst.opcode) in
    (note_arsh inst result u, result)

abbrev pub get_operand : ℕ → EbpfInst → Outcome Value
get_operand pc inst =
    if not (bit_and inst.opcode inst_src_reg == 0)
    then (if not (eqb_ℤ inst.imm (pos 0))
        then invalid pc (Message.nonzero_imm_for inst.opcode)
        else ok (Value.reg (inst_src inst)))
    else if not (inst_src inst == 0)
    then invalid pc (Message.bad_instruction inst.opcode)
    else ok (Value.imm (sign_extend inst.imm))

abbrev is_unsigned_division : BinOp → Bool
is_unsigned_division BinOp.udiv = true
is_unsigned_division BinOp.umod = true
is_unsigned_division _ = false

abbrev is_imm_zero : Value → Bool
is_imm_zero (Value.imm n) = n == 0
is_imm_zero (Value.reg r) = false

abbrev pub finish_bin :
    Bool
    → EbpfInst
    → BinOp
    → Bool
    → Unmarshaller
    → Outcome Value
    → Unmarshaller × Outcome Instruction
finish_bin allow_division_by_zero inst op is64 u (ok v) = (
  if not allow_division_by_zero && is_unsigned_division op && is_imm_zero v
      then note Note.division_by_zero u
      else u,
  ok (Instruction.bin (record { op = op; dst = inst_dst inst; v = v; is64 = is64; lddw = false })),
)
finish_bin allow_division_by_zero inst op is64 u (err e) = (u, err e)
finish_bin allow_division_by_zero inst op is64 u panic = (u, panic)

abbrev pub finish_alu :
    Bool
    → ℕ
    → EbpfInst
    → Bool
    → Unmarshaller × Outcome Operation
    → Unmarshaller × Outcome Instruction
finish_alu allow_division_by_zero pc inst is64 (u, ok (inr op)) =
    (u, ok (Instruction.un (record { op = op; dst = inst_dst inst; is64 = is64 })))
finish_alu allow_division_by_zero pc inst is64 (u, ok (inl op)) =
    finish_bin allow_division_by_zero inst op is64 u (get_operand pc inst)
finish_alu allow_division_by_zero pc inst is64 (u, err e) = (u, err e)
finish_alu allow_division_by_zero pc inst is64 (u, panic) = (u, panic)

unfoldable pub make_alu_op :
    (allow_division_by_zero : Bool)
    → ℕ
    → EbpfInst
    → Unmarshaller
    → Unmarshaller × Outcome Instruction
make_alu_op allow_division_by_zero pc inst u =
    let is64 = bit_and inst.opcode inst_cls_mask == inst_cls_alu64 in
    if inst_dst inst == r10_stack_pointer
    then (u, invalid pc Message.invalid_target_r10)
    else if ltb r10_stack_pointer (inst_dst inst) || ltb r10_stack_pointer (inst_src inst)
    then (u, invalid pc Message.bad_register)
    else finish_alu allow_division_by_zero pc inst is64 (get_alu_op pc inst u)
