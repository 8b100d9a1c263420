-- ===== src/Ir/Syntax.antt =====
-- src/ir/syntax.rs: the decoded instructions, and those that stand in the control-flow graph.
use prevail_rust.Base.Tests.{ℕ, Option, Bool}
use prevail_rust.Base.Int.{ℤ}
use prevail_rust.Cfg.Label.{Label, Text}
use prevail_rust.Ir.Contract.{Call}
use prevail_rust.Ir.Isa.{Reg, AccessSize}

pub data BinOp : Type 0 where
  mov : BinOp
  add : BinOp
  sub : BinOp
  mul : BinOp
  udiv : BinOp
  umod : BinOp
  or : BinOp
  and : BinOp
  lsh : BinOp
  rsh : BinOp
  arsh : BinOp
  xor : BinOp
  sdiv : BinOp
  smod : BinOp
  movsx8 : BinOp
  movsx16 : BinOp
  movsx32 : BinOp

pub data UnOp : Type 0 where
  be16 : UnOp
  be32 : UnOp
  be64 : UnOp
  le16 : UnOp
  le32 : UnOp
  le64 : UnOp
  swap16 : UnOp
  swap32 : UnOp
  swap64 : UnOp
  neg : UnOp

pub data ConditionOp : Type 0 where
  eq : ConditionOp
  ne : ConditionOp
  set : ConditionOp
  nset : ConditionOp
  lt : ConditionOp
  le : ConditionOp
  gt : ConditionOp
  ge : ConditionOp
  slt : ConditionOp
  sle : ConditionOp
  sgt : ConditionOp
  sge : ConditionOp

pub data AtomicOp : Type 0 where
  add : AtomicOp
  or : AtomicOp
  and : AtomicOp
  xor : AtomicOp
  xchg : AtomicOp
  cmpxchg : AtomicOp

-- An immediate is a `u64`.
pub data Value : Type 0 where
  imm : ℕ → Value
  reg : Reg → Value

pub record Bin : Type 0 where
  pub op : BinOp
  pub dst : Reg
  pub v : Value
  pub is64 : Bool
  pub lddw : Bool

pub record Un : Type 0 where
  pub op : UnOp
  pub dst : Reg
  pub is64 : Bool

pub record Deref : Type 0 where
  pub width : AccessSize
  pub basereg : Reg
  pub offset : ℤ

pub record Mem : Type 0 where
  pub access : Deref
  pub value : Value
  pub is_load : Bool
  pub is_signed : Bool

pub record Packet : Type 0 where
  pub width : AccessSize
  pub offset : ℤ
  pub regoffset : Option Reg

pub record Atomic : Type 0 where
  pub op : AtomicOp
  pub fetch : Bool
  pub access : Deref
  pub valreg : Reg

pub data PseudoAddressKind : Type 0 where
  variable_addr : PseudoAddressKind
  code_addr : PseudoAddressKind
  map_by_idx : PseudoAddressKind
  map_value_by_idx : PseudoAddressKind

pub record Condition : Type 0 where
  pub op : ConditionOp
  pub left : Reg
  pub right : Value
  pub is64 : Bool

pub record Jmp : Type 0 where
  pub cond : Option Condition
  pub target : Label

pub data Instruction : Type 0 where
  bin : Bin → Instruction
  un : Un → Instruction
  mem : Mem → Instruction
  packet : Packet → Instruction
  atomic : Atomic → Instruction
  load_map_fd : Reg → ℤ → Instruction
  load_map_address : Reg → ℤ → ℤ → Instruction
  load_pseudo : Reg → PseudoAddressKind → ℤ → ℤ → Instruction
  undefined : ℤ → Instruction
  call : Call → Instruction
  call_local : Label → Text → Instruction
  callx : Reg → Instruction
  call_btf : ℤ → ℤ → Instruction
  exit : Text → Instruction
  jmp : Jmp → Instruction
  assume : Condition → Bool → Instruction
  increment_loop_counter : Label → Instruction
