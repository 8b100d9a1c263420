-- ===== src/Ir/Unmarshal/Mem.antt =====
-- src/ir/unmarshal.rs: `make_mem_op`. The `i32` sums on an `i16` offset do not overflow; the stack
-- size is one whose negation is an `i32`.
use Prim.Native.Nat.{bit_and}
use prevail_rust.Base.Tests.{
  ℕ, Option, none, some, Bool, true, false, not, ◌&&◌, ◌||◌, ltb, ◌==◌, if◌then◌else◌,
}
use prevail_rust.Base.Int.{ℤ, pos, ltb_ℤ, eqb_ℤ, neg_ℤ, ◌+ℤ◌}
use prevail_rust.Ir.Isa.{
  EbpfInst, AccessSize, Reg, access_size_from_opcode, access_size_bytes, inst_dst, inst_src,
  inst_cls_mask, inst_size_mask, inst_mode_mask, r10_stack_pointer, bits,
}
use prevail_rust.Ir.Syntax.{AtomicOp, Value, Deref, Instruction}
use prevail_rust.Ir.Unmarshal.{
  Message, Outcome, Note, Unmarshaller, ok, panic, note, sign_extend, get_mem_is_load, invalid,
}

abbrev is_class : ℕ → EbpfInst → Bool
is_class cls inst = bit_and inst.opcode inst_cls_mask == cls

abbrev inst_cls_ld : ℕ
inst_cls_ld = 0x00

abbrev inst_cls_ldx : ℕ
inst_cls_ldx = 0x01

abbrev inst_cls_stx : ℕ
inst_cls_stx = 0x03

abbrev inst_fetch : ℕ
inst_fetch = 0x1

abbrev bad : ℕ → EbpfInst → Outcome Instruction
bad pc inst = invalid pc (Message.bad_instruction inst.opcode)

abbrev is_dword : AccessSize → Bool
is_dword AccessSize.dword = true
is_dword _ = false

abbrev pub make_abs : ℕ → EbpfInst → AccessSize → Outcome Instruction
make_abs pc inst width =
    if not (is_class inst_cls_ld inst) || is_dword width
    then bad pc inst
    else if not (inst_dst inst == 0)
    then invalid pc (Message.nonzero_dst_for_register inst.opcode)
    else if ltb 0 (inst_src inst)
    then bad pc inst
    else if not (eqb_ℤ inst.offset (pos 0))
    then invalid pc (Message.nonzero_offset_for inst.opcode)
    else ok (Instruction.packet (record { width = width; offset = inst.imm; regoffset = none }))

abbrev pub make_ind : ℕ → EbpfInst → AccessSize → Outcome Instruction
make_ind pc inst width =
    if not (is_class inst_cls_ld inst) || is_dword width
    then bad pc inst
    else if not (inst_dst inst == 0)
    then invalid pc (Message.nonzero_dst_for_register inst.opcode)
    else if ltb r10_stack_pointer (inst_src inst)
    then invalid pc Message.bad_register
    else if not (eqb_ℤ inst.offset (pos 0))
    then invalid pc (Message.nonzero_offset_for inst.opcode)
    else ok (
        Instruction.packet
          (record { width = width; offset = inst.imm; regoffset = some (inst_src inst) }))

abbrev deref : AccessSize → Reg → EbpfInst → Deref
deref width basereg inst = record { width = width; basereg = basereg; offset = inst.offset }

abbrev mem_value : EbpfInst → (is_load is_imm : Bool) → Value
mem_value inst true is_imm = Value.reg (inst_dst inst)
mem_value inst false true = Value.imm (sign_extend inst.imm)
mem_value inst false false = Value.reg (inst_src inst)

-- The body of the `INST_MODE_MEM` case, from the answer of `get_mem_is_load` on.
abbrev pub make_load_store : ℕ → EbpfInst → AccessSize → Option Bool → Outcome Instruction
make_load_store pc inst width none = panic
make_load_store pc inst width (some is_load) =
    let is_imm = bit_and inst.opcode 1 == 0 in
    if is_load && (inst_dst inst == r10_stack_pointer)
    then invalid pc Message.cannot_modify_r10
    else if is_imm && not (inst_src inst == 0)
    then bad pc inst
    else if not is_imm && not (eqb_ℤ inst.imm (pos 0))
    then invalid pc (Message.nonzero_imm_for inst.opcode)
    else ok (
        Instruction.mem (record {
          access = deref width (if is_load then inst_src inst else inst_dst inst) inst;
          value = mem_value inst is_load is_imm;
          is_load = is_load;
          is_signed = false;
        }))

abbrev pub make_mem : ℕ → EbpfInst → AccessSize → Outcome Instruction
make_mem pc inst width =
    if is_class inst_cls_ld inst
    then bad pc inst
    else make_load_store pc inst width (get_mem_is_load inst.opcode)

abbrev is_out_of_stack : EbpfInst → AccessSize → Unmarshaller → Bool
is_out_of_stack inst width u =
    (inst_src inst == r10_stack_pointer)
    && (ltb_ℤ (pos 0) (inst.offset +ℤ pos (access_size_bytes width))
        || ltb_ℤ inst.offset (neg_ℤ u.subprogram_stack_size))

abbrev pub make_memsx :
    ℕ → EbpfInst → AccessSize → Unmarshaller → Unmarshaller × Outcome Instruction
make_memsx pc inst width u =
    if not (is_class inst_cls_ldx inst) || is_dword width
    then (u, bad pc inst)
    else if inst_dst inst == r10_stack_pointer
    then (u, invalid pc Message.cannot_modify_r10)
    else if not (eqb_ℤ inst.imm (pos 0))
    then (u, invalid pc (Message.nonzero_imm_for inst.opcode))
    else (
      if is_out_of_stack inst width u then note Note.stack_access_out_of_bounds u else u,
      ok (
          Instruction.mem (record {
            access = deref width (inst_src inst) inst;
            value = Value.reg (inst_dst inst);
            is_load = true;
            is_signed = true;
          })),
    )

-- `inst.imm & INST_FETCH as i32`
abbrev has_fetch : ℤ → Bool
has_fetch imm = not (bit_and (bits 32 imm) inst_fetch == 0)

-- `inst.imm & !INST_FETCH as i32`: the complement is taken on `u8`, before the cast.
unfoldable pub get_atomic_op : ℤ → Option AtomicOp
get_atomic_op imm =
    let code = bit_and (bits 32 imm) 0xfe in
    if code == 0x00
    then some AtomicOp.add
    else if code == 0x40
    then some AtomicOp.or
    else if code == 0x50
    then some AtomicOp.and
    else if code == 0xa0
    then some AtomicOp.xor
    else if code == 0xe0
    then (if has_fetch imm then some AtomicOp.xchg else none)
    else if code == 0xf0
    then (if has_fetch imm then some AtomicOp.cmpxchg else none)
    else none

abbrev pub finish_atomic : ℕ → EbpfInst → AccessSize → Option AtomicOp → Outcome Instruction
finish_atomic pc inst width none = invalid pc Message.unsupported_immediate
finish_atomic pc inst width (some op) = ok (
    Instruction.atomic (record {
      op = op;
      fetch = has_fetch inst.imm;
      access = deref width (inst_dst inst) inst;
      valreg = inst_src inst;
    }))

abbrev pub make_atomic : ℕ → EbpfInst → AccessSize → Outcome Instruction
make_atomic pc inst width =
    let size = bit_and inst.opcode inst_size_mask in
    if not (is_class inst_cls_stx inst) || (not (size == 0x00) && not (size == 0x18))
    then bad pc inst
    else finish_atomic pc inst width (get_atomic_op inst.imm)

-- The `match` on the mode bits.
abbrev pub make_mode :
    ℕ → EbpfInst → AccessSize → Unmarshaller → ℕ → Unmarshaller × Outcome Instruction
make_mode pc inst width u mode =
    if mode == 0x00
    then (u, bad pc inst)
    else if mode == 0x20
    then (u, make_abs pc inst width)
    else if mode == 0x40
    then (u, make_ind pc inst width)
    else if mode == 0x60
    then (u, make_mem pc inst width)
    else if mode == 0x80
    then make_memsx pc inst width u
    else if mode == 0xc0
    then (u, make_atomic pc inst width)
    else (u, bad pc inst)

abbrev pub make_sized :
    ℕ → EbpfInst → Unmarshaller → Option AccessSize → Unmarshaller × Outcome Instruction
make_sized pc inst u none = (u, panic)
make_sized pc inst u (some width) = make_mode pc inst width u (bit_and inst.opcode inst_mode_mask)

unfoldable pub make_mem_op : ℕ → EbpfInst → Unmarshaller → Unmarshaller × Outcome Instruction
make_mem_op pc inst u =
    if ltb r10_stack_pointer (inst_dst inst) || ltb r10_stack_pointer (inst_src inst)
    then (u, invalid pc Message.bad_register)
    else make_sized pc inst u (access_size_from_opcode inst.opcode)
