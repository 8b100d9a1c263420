-- ===== src/Ir/Unmarshal/Conditions.antt =====
-- src/ir/marshal.rs against src/ir/unmarshal.rs and src/spec/vm_isa.rs: comparisons.
use Prim.Native.Nat.{bit_and}
use prevail_rust.Base.Tests.{ℕ, ◌+◌, ◌*◌, ◌/◌, ◌^◌, ◌<◌, ◌≡◌, refl, ap, sym, some, arith}
use prevail_rust.Base.Bits.{bit_and-mask}
use prevail_rust.Ir.Isa.{jmp_op_of_nibble, jmp_op_from_opcode}
use prevail_rust.Ir.Syntax.{ConditionOp}
use prevail_rust.Ir.Marshal.{marshal_condition_op}
use prevail_rust.Ir.Unmarshal.{jmp_op_to_cond}
use mathlib.Core.Option.{map}

-- An opcode is the operation's nibble above the class and source bits.
jmp_op_nibble :
    (n low : ℕ) → n < 16 → low < 16 → jmp_op_from_opcode (n * 2 ^ 4 + low) ≡ jmp_op_of_nibble n
unfolding jmp_op_from_opcode
jmp_op_nibble n low h k = ap jmp_op_of_nibble nibble
  where
    nibble : bit_and ((n * 2 ^ 4 + low) / 2 ^ 4) 0xf ≡ n
    nibble = omega (arith, bit_and-mask 4 ((n * 2 ^ 4 + low) / 2 ^ 4))

-- An operation that is encoded as the nibble k is decoded from every opcode that carries k.
decode_nibble :
    (op : ConditionOp) (n k low : ℕ)
    → some k ≡ some n
    → map jmp_op_to_cond (jmp_op_of_nibble k) ≡ some op
    → k < 16
    → low < 16
    → map jmp_op_to_cond (jmp_op_from_opcode (n * 2 ^ 4 + low)) ≡ some op
decode_nibble op n k low h decoded small l =
    rw (sym (some_inj h)) (rw (jmp_op_nibble k low small l) decoded)
  where
    some_inj : some k ≡ some n → k ≡ n
    some_inj e = cc

-- A comparison that has an encoding is read back from every opcode whose operation bits hold the
-- encoding, whatever the low four bits are.
pub jmp_op_to_cond-marshal_condition_op :
    (op : ConditionOp) (n low : ℕ)
    → marshal_condition_op op ≡ some n
    → low < 16
    → map jmp_op_to_cond (jmp_op_from_opcode (n * 2 ^ 4 + low)) ≡ some op
unfolding marshal_condition_op jmp_op_to_cond
jmp_op_to_cond-marshal_condition_op ConditionOp.eq n low h k =
    decode_nibble ConditionOp.eq n 1 low h refl (omega arith) k
jmp_op_to_cond-marshal_condition_op ConditionOp.ne n low h k =
    decode_nibble ConditionOp.ne n 5 low h refl (omega arith) k
jmp_op_to_cond-marshal_condition_op ConditionOp.set n low h k =
    decode_nibble ConditionOp.set n 4 low h refl (omega arith) k
jmp_op_to_cond-marshal_condition_op ConditionOp.nset n low h k = cc
jmp_op_to_cond-marshal_condition_op ConditionOp.lt n low h k =
    decode_nibble ConditionOp.lt n 10 low h refl (omega arith) k
jmp_op_to_cond-marshal_condition_op ConditionOp.le n low h k =
    decode_nibble ConditionOp.le n 11 low h refl (omega arith) k
jmp_op_to_cond-marshal_condition_op ConditionOp.gt n low h k =
    decode_nibble ConditionOp.gt n 2 low h refl (omega arith) k
jmp_op_to_cond-marshal_condition_op ConditionOp.ge n low h k =
    decode_nibble ConditionOp.ge n 3 low h refl (omega arith) k
jmp_op_to_cond-marshal_condition_op ConditionOp.slt n low h k =
    decode_nibble ConditionOp.slt n 12 low h refl (omega arith) k
jmp_op_to_cond-marshal_condition_op ConditionOp.sle n low h k =
    decode_nibble ConditionOp.sle n 13 low h refl (omega arith) k
jmp_op_to_cond-marshal_condition_op ConditionOp.sgt n low h k =
    decode_nibble ConditionOp.sgt n 6 low h refl (omega arith) k
jmp_op_to_cond-marshal_condition_op ConditionOp.sge n low h k =
    decode_nibble ConditionOp.sge n 7 low h refl (omega arith) k
