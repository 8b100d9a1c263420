-- ===== src/Ir/Unmarshal.antt =====
-- src/ir/unmarshal.rs: the decoder's errors, notes and small helpers. The decoding of each class of
-- instruction is in the modules below.
use prevail_rust.Base.Tests.{ℕ, Option, none, some, Bool, true, false, List, [], ◌∷◌, ◌++◌, switch}
use prevail_rust.Base.Int.{ℤ}
use Prim.Native.Nat.{bit_and}
use prevail_rust.Ir.Isa.{JmpOp, bits, inst_cls_mask}
use prevail_rust.Ir.Syntax.{ConditionOp}
use prevail_rust.Ir.Config.{OptionError}
pub mod Alu
pub mod Mem
pub mod Lddw
pub mod RoundTrip
pub mod Safe
pub mod Wide
pub mod Atomic
pub mod Conditions
pub mod Jumps
pub mod Merge
pub mod Program
mod Tests

-- The texts of the errors; the source prints the opcode, or the instruction's name, into some.
pub data Message : Type 0 where
  bad_instruction : ℕ → Message
  invalid_offset_for : ℕ → Message
  nonzero_offset_for : ℕ → Message
  nonzero_imm_for : ℕ → Message
  nonzero_dst_for_register : ℕ → Message
  unsupported_immediate : Message
  invalid_target_r10 : Message
  cannot_modify_r10 : Message
  bad_register : Message
  incomplete_lddw : Message
  invalid_lddw : Message
  lddw_uses_reserved_fields : Message
  negative_module_for : ℕ → Message
  jump_out_of_bounds : Message
  invalid_class : ℕ → Message

pub data UnmarshalError : Type 0 where
  invalid_instruction : ℕ → Message → UnmarshalError
  zero_length_program : UnmarshalError
  invalid_options : OptionError → UnmarshalError

-- A `Result`, or a panic: an `unreachable!` or an index out of range.
pub data Outcome {ℓ} (A : Type ℓ) : Type ℓ where
  ok : A → Outcome A
  err : UnmarshalError → Outcome A
  panic : Outcome A

abbrev pub invalid {ℓ} : {A : Type ℓ} → ℕ → Message → Outcome A
invalid pc message = err (UnmarshalError.invalid_instruction pc message)

pub data Note : Type 0 where
  arsh32_is_not_allowed : Note
  division_by_zero : Note
  stack_access_out_of_bounds : Note
  fallthrough_in_last_instruction : Note
  no_exit_instruction : Note

-- The part of the decoder's state that decoding one slot reads or writes.
pub record Unmarshaller : Type 0 where
  pub notes : List (List Note)
  pub subprogram_stack_size : ℤ

abbrev pub push_last : Note → List (List Note) → List (List Note)
push_last what [] = []
push_last what (last ∷ []) = (last ++ (what ∷ [])) ∷ []
push_last what (first ∷ (second ∷ rest)) = first ∷ push_last what (second ∷ rest)

unfoldable pub note : Note → Unmarshaller → Unmarshaller
note what u = record u { notes = push_last what u.notes }

unfoldable pub note_next_pc : Unmarshaller → Unmarshaller
note_next_pc u = record u { notes = u.notes ++ ([] ∷ []) }

abbrev pub or_panic {ℓ} : {A : Type ℓ} → Option A → Outcome A
or_panic none = panic
or_panic (some a) = ok a

unfoldable pub get_mem_is_load : ℕ → Option Bool
get_mem_is_load opcode =
    switch (bit_and opcode inst_cls_mask)
      ((0x00, true) ∷ (0x01, true) ∷ (0x02, false) ∷ (0x03, false) ∷ [])

-- `imm as i64 as u64`
unfoldable pub sign_extend : ℤ → ℕ
sign_extend imm = bits 64 imm

unfoldable pub jmp_op_to_cond : JmpOp → ConditionOp
jmp_op_to_cond JmpOp.ja = ConditionOp.eq
jmp_op_to_cond JmpOp.jeq = ConditionOp.eq
jmp_op_to_cond JmpOp.jgt = ConditionOp.gt
jmp_op_to_cond JmpOp.jge = ConditionOp.ge
jmp_op_to_cond JmpOp.jset = ConditionOp.set
jmp_op_to_cond JmpOp.jne = ConditionOp.ne
jmp_op_to_cond JmpOp.jsgt = ConditionOp.sgt
jmp_op_to_cond JmpOp.jsge = ConditionOp.sge
jmp_op_to_cond JmpOp.call = ConditionOp.eq
jmp_op_to_cond JmpOp.exit = ConditionOp.eq
jmp_op_to_cond JmpOp.jlt = ConditionOp.lt
jmp_op_to_cond JmpOp.jle = ConditionOp.le
jmp_op_to_cond JmpOp.jslt = ConditionOp.slt
jmp_op_to_cond JmpOp.jsle = ConditionOp.sle
