-- ===== src/Ir/Isa.antt =====
-- src/spec/vm_isa.rs: the fields of an eBPF instruction and the packed instruction itself. Bytes
-- and words are natural numbers below their bound; `offset` is the `i16` and `imm` the `i32`.
use Prim.Native.Nat.{bit_and, bit_or}
use prevail_rust.Base.Tests.{
  ℕ, ◌+◌, ◌-◌, ◌*◌, ◌/◌, ◌%◌, ◌^◌, Option, [], ◌∷◌, switch, ltb, if◌then◌else◌,
}
use prevail_rust.Base.Int.{ℤ, pos, negsuc}
pub mod Pack

abbrev pub inst_src_reg : ℕ
inst_src_reg = 0x08

abbrev pub inst_end_be : ℕ
inst_end_be = 0x08

abbrev pub inst_cls_mask : ℕ
inst_cls_mask = 0x07

abbrev pub inst_size_mask : ℕ
inst_size_mask = 0x18

abbrev pub inst_mode_mask : ℕ
inst_mode_mask = 0xe0

abbrev pub inst_alu_op_mask : ℕ
inst_alu_op_mask = 0xf0

pub data InstructionClass : Type 0 where
  ld : InstructionClass
  ldx : InstructionClass
  st : InstructionClass
  stx : InstructionClass
  alu : InstructionClass
  jmp : InstructionClass
  jmp32 : InstructionClass
  alu64 : InstructionClass

abbrev pub class_of_bits : ℕ → Option InstructionClass
class_of_bits n = switch n (
    (0x00, InstructionClass.ld)
    ∷ (0x01, InstructionClass.ldx)
    ∷ (0x02, InstructionClass.st)
    ∷ (0x03, InstructionClass.stx)
    ∷ (0x04, InstructionClass.alu)
    ∷ (0x05, InstructionClass.jmp)
    ∷ (0x06, InstructionClass.jmp32)
    ∷ (0x07, InstructionClass.alu64)
    ∷ [])

unfoldable pub class_from_opcode : ℕ → Option InstructionClass
class_from_opcode opcode = class_of_bits (bit_and opcode inst_cls_mask)

pub data JmpOp : Type 0 where
  ja : JmpOp
  jeq : JmpOp
  jgt : JmpOp
  jge : JmpOp
  jset : JmpOp
  jne : JmpOp
  jsgt : JmpOp
  jsge : JmpOp
  call : JmpOp
  exit : JmpOp
  jlt : JmpOp
  jle : JmpOp
  jslt : JmpOp
  jsle : JmpOp

abbrev pub jmp_op_of_nibble : ℕ → Option JmpOp
jmp_op_of_nibble n = switch n (
    (0x0, JmpOp.ja)
    ∷ (0x1, JmpOp.jeq)
    ∷ (0x2, JmpOp.jgt)
    ∷ (0x3, JmpOp.jge)
    ∷ (0x4, JmpOp.jset)
    ∷ (0x5, JmpOp.jne)
    ∷ (0x6, JmpOp.jsgt)
    ∷ (0x7, JmpOp.jsge)
    ∷ (0x8, JmpOp.call)
    ∷ (0x9, JmpOp.exit)
    ∷ (0xa, JmpOp.jlt)
    ∷ (0xb, JmpOp.jle)
    ∷ (0xc, JmpOp.jslt)
    ∷ (0xd, JmpOp.jsle)
    ∷ [])

-- `(opcode >> 4) & 0xF`
unfoldable pub jmp_op_from_opcode : ℕ → Option JmpOp
jmp_op_from_opcode opcode = jmp_op_of_nibble (bit_and (opcode / 2 ^ 4) 0xf)

pub data AluOp : Type 0 where
  add : AluOp
  sub : AluOp
  mul : AluOp
  div : AluOp
  or : AluOp
  and : AluOp
  lsh : AluOp
  rsh : AluOp
  neg : AluOp
  mod_ : AluOp
  xor : AluOp
  mov : AluOp
  arsh : AluOp
  end : AluOp

abbrev pub alu_op_of_bits : ℕ → Option AluOp
alu_op_of_bits n = switch n (
    (0x00, AluOp.add)
    ∷ (0x10, AluOp.sub)
    ∷ (0x20, AluOp.mul)
    ∷ (0x30, AluOp.div)
    ∷ (0x40, AluOp.or)
    ∷ (0x50, AluOp.and)
    ∷ (0x60, AluOp.lsh)
    ∷ (0x70, AluOp.rsh)
    ∷ (0x80, AluOp.neg)
    ∷ (0x90, AluOp.mod_)
    ∷ (0xa0, AluOp.xor)
    ∷ (0xb0, AluOp.mov)
    ∷ (0xc0, AluOp.arsh)
    ∷ (0xd0, AluOp.end)
    ∷ [])

unfoldable pub alu_op_from_opcode : ℕ → Option AluOp
alu_op_from_opcode opcode = alu_op_of_bits (bit_and opcode inst_alu_op_mask)

-- A register is the number in the newtype `Reg`.
abbrev pub Reg : Type 0
Reg = ℕ

abbrev pub r10_stack_pointer : Reg
r10_stack_pointer = 10

pub record EbpfInst : Type 0 where
  pub opcode : ℕ
  pub dst_src : ℕ
  pub offset : ℤ
  pub imm : ℤ

unfoldable pub inst_dst : EbpfInst → Reg
inst_dst i = bit_and i.dst_src 0x0f

unfoldable pub inst_src : EbpfInst → Reg
inst_src i = bit_and (i.dst_src / 2 ^ 4) 0x0f

-- The shift of a byte drops what leaves it.
abbrev high_nibble : ℕ → ℕ
high_nibble n = bit_and n 0x0f * 2 ^ 4 % 2 ^ 8

unfoldable pub set_src : ℕ → EbpfInst → EbpfInst
set_src n i = record i { dst_src = bit_or (bit_and i.dst_src 0x0f) (high_nibble n) }

unfoldable pub set_dst : ℕ → EbpfInst → EbpfInst
set_dst n i = record i { dst_src = bit_or (bit_and i.dst_src 0xf0) (bit_and n 0x0f) }

unfoldable pub inst_new : ℕ → ℕ → ℕ → ℤ → ℤ → EbpfInst
inst_new op d s off v = record {
  opcode = op;
  dst_src = bit_or (bit_and d 0x0f) (high_nibble s);
  offset = off;
  imm = v;
}

-- The two's complement bits of a signed integer of `w` bits, and back.
abbrev pub bits : ℕ → ℤ → ℕ
bits w (pos n) = n % 2 ^ w
bits w (negsuc n) = 2 ^ w - 1 - n % 2 ^ w

abbrev pub signed : ℕ → ℕ → ℤ
signed w n = if ltb n (2 ^ (w - 1)) then pos n else negsuc (2 ^ w - 1 - n)

-- `((next_imm as u64) << 32) | (imm as u32 as u64)`
unfoldable pub merge : ℤ → ℤ → ℕ
merge low next = bit_or (bits 64 next * 2 ^ 32 % 2 ^ 64) (bits 32 low)

pub record SplitResult : Type 0 where
  pub lo : ℤ
  pub hi : ℤ

unfoldable pub split : ℕ → SplitResult
split v = record { lo = signed 32 (v % 2 ^ 32); hi = signed 32 (v / 2 ^ 32 % 2 ^ 32) }

pub data AccessSize : Type 0 where
  byte : AccessSize
  half : AccessSize
  word : AccessSize
  dword : AccessSize

abbrev pub access_size_of_bits : ℕ → Option AccessSize
access_size_of_bits n = switch n (
    (0x10, AccessSize.byte)
    ∷ (0x08, AccessSize.half)
    ∷ (0x00, AccessSize.word)
    ∷ (0x18, AccessSize.dword)
    ∷ [])

-- `none` is the source's `unreachable!`.
unfoldable pub access_size_from_opcode : ℕ → Option AccessSize
access_size_from_opcode opcode = access_size_of_bits (bit_and opcode inst_size_mask)

unfoldable pub access_size_to_opcode : AccessSize → ℕ
access_size_to_opcode AccessSize.byte = 0x10
access_size_to_opcode AccessSize.half = 0x08
access_size_to_opcode AccessSize.word = 0x00
access_size_to_opcode AccessSize.dword = 0x18

unfoldable pub access_size_bytes : AccessSize → ℕ
access_size_bytes AccessSize.byte = 1
access_size_bytes AccessSize.half = 2
access_size_bytes AccessSize.word = 4
access_size_bytes AccessSize.dword = 8
