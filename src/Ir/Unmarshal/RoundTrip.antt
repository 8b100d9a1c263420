-- ===== src/Ir/Unmarshal/RoundTrip.antt =====
-- src/ir/marshal.rs against src/ir/unmarshal.rs: binary operations.
use Prim.Native.Nat.{bit_and}
use prevail_rust.Base.Tests.{
  ℕ, ◌+◌, ◌*◌, ◌%◌, ◌^◌, ◌<◌, ◌≤◌, ◌==◌, inl, Bool, true, false, if◌then◌else◌, ltb, ◌∙◌, ◌≡◌, refl,
  arith,
}
use prevail_rust.Base.Int.{pos, eqb_ℤ}
use prevail_rust.Ir.Isa.{EbpfInst, inst_new, inst_dst, inst_src, alu_op_from_opcode}
use prevail_rust.Ir.Syntax.{BinOp, Value, Instruction}
use prevail_rust.Ir.Marshal.{marshal_bin_op, marshal_bin_op_offset}
use prevail_rust.Ir.Unmarshal.{Unmarshaller, ok}
use prevail_rust.Ir.Unmarshal.Alu.{get_alu_op, make_alu_op}
use prevail_rust.Ir.Isa.Pack.{inst_new-fields}

abbrev encode_opcode : BinOp → Bool → ℕ
encode_opcode op is64 = marshal_bin_op op * 2 ^ 4 + 0x08 + (if is64 then 0x07 else 0x04)

-- An operation's slot in the form with a source register, with or without the 64-bit class.
abbrev pub encode_bin : BinOp → Bool → (d s : ℕ) → EbpfInst
encode_bin op is64 d s = inst_new (encode_opcode op is64) d s (marshal_bin_op_offset op) (pos 0)

-- The decoder's answer on a slot in the register form, from what its fields hold.
make_alu_op_register :
    (allow : Bool) (op : BinOp) (is64 : Bool) (d s pc : ℕ) (inst : EbpfInst) (u : Unmarshaller)
    → (get_alu_op pc inst u).1 ≡ ok (inl op)
    → inst_dst inst ≡ d
    → inst_src inst ≡ s
    → d < 10
    → s ≤ 10
    → (bit_and inst.opcode 0x08 == 0) ≡ false
    → eqb_ℤ inst.imm (pos 0) ≡ true
    → (bit_and inst.opcode 0x07 == 0x07) ≡ is64
    → (make_alu_op allow pc inst u).1
      ≡ ok (
          Instruction.bin (record { op = op; dst = d; v = Value.reg s; is64 = is64; lddw = false }))
unfolding make_alu_op get_alu_op
make_alu_op_register allow op is64 d s pc inst u decoded hd hs dl sl register zeroed class =
    rw (hd, hs, not_r10, dst_low, src_low, decoded, register, zeroed, class, hd, hs) refl
  where
    not_r10 : (d == 10) ≡ false
    not_r10 = ground arith

    dst_low : ltb 10 d ≡ false
    dst_low = ground arith

    src_low : ltb 10 s ≡ false
    src_low = ground arith

decoded_op :
    (op : BinOp) (is64 : Bool) (d s pc : ℕ) (u : Unmarshaller)
    → (get_alu_op pc (encode_bin op is64 d s) u).1 ≡ ok (inl op)
unfolding get_alu_op inst_new alu_op_from_opcode marshal_bin_op marshal_bin_op_offset
decoded_op BinOp.mov true d s pc u = refl
decoded_op BinOp.mov false d s pc u = refl
decoded_op BinOp.add true d s pc u = refl
decoded_op BinOp.add false d s pc u = refl
decoded_op BinOp.sub true d s pc u = refl
decoded_op BinOp.sub false d s pc u = refl
decoded_op BinOp.mul true d s pc u = refl
decoded_op BinOp.mul false d s pc u = refl
decoded_op BinOp.udiv true d s pc u = refl
decoded_op BinOp.udiv false d s pc u = refl
decoded_op BinOp.umod true d s pc u = refl
decoded_op BinOp.umod false d s pc u = refl
decoded_op BinOp.or true d s pc u = refl
decoded_op BinOp.or false d s pc u = refl
decoded_op BinOp.and true d s pc u = refl
decoded_op BinOp.and false d s pc u = refl
decoded_op BinOp.lsh true d s pc u = refl
decoded_op BinOp.lsh false d s pc u = refl
decoded_op BinOp.rsh true d s pc u = refl
decoded_op BinOp.rsh false d s pc u = refl
decoded_op BinOp.arsh true d s pc u = refl
decoded_op BinOp.arsh false d s pc u = refl
decoded_op BinOp.xor true d s pc u = refl
decoded_op BinOp.xor false d s pc u = refl
decoded_op BinOp.sdiv true d s pc u = refl
decoded_op BinOp.sdiv false d s pc u = refl
decoded_op BinOp.smod true d s pc u = refl
decoded_op BinOp.smod false d s pc u = refl
decoded_op BinOp.movsx8 true d s pc u = refl
decoded_op BinOp.movsx8 false d s pc u = refl
decoded_op BinOp.movsx16 true d s pc u = refl
decoded_op BinOp.movsx16 false d s pc u = refl
decoded_op BinOp.movsx32 true d s pc u = refl
decoded_op BinOp.movsx32 false d s pc u = refl

register_form :
    (op : BinOp) (is64 : Bool) (d s : ℕ)
    → ((bit_and (encode_bin op is64 d s).opcode 0x08 == 0) ≡ false)
      × ((bit_and (encode_bin op is64 d s).opcode 0x07 == 0x07) ≡ is64)
      × (eqb_ℤ (encode_bin op is64 d s).imm (pos 0) ≡ true)
unfolding inst_new marshal_bin_op
register_form BinOp.mov true d s = (refl, refl, refl)
register_form BinOp.mov false d s = (refl, refl, refl)
register_form BinOp.add true d s = (refl, refl, refl)
register_form BinOp.add false d s = (refl, refl, refl)
register_form BinOp.sub true d s = (refl, refl, refl)
register_form BinOp.sub false d s = (refl, refl, refl)
register_form BinOp.mul true d s = (refl, refl, refl)
register_form BinOp.mul false d s = (refl, refl, refl)
register_form BinOp.udiv true d s = (refl, refl, refl)
register_form BinOp.udiv false d s = (refl, refl, refl)
register_form BinOp.umod true d s = (refl, refl, refl)
register_form BinOp.umod false d s = (refl, refl, refl)
register_form BinOp.or true d s = (refl, refl, refl)
register_form BinOp.or false d s = (refl, refl, refl)
register_form BinOp.and true d s = (refl, refl, refl)
register_form BinOp.and false d s = (refl, refl, refl)
register_form BinOp.lsh true d s = (refl, refl, refl)
register_form BinOp.lsh false d s = (refl, refl, refl)
register_form BinOp.rsh true d s = (refl, refl, refl)
register_form BinOp.rsh false d s = (refl, refl, refl)
register_form BinOp.arsh true d s = (refl, refl, refl)
register_form BinOp.arsh false d s = (refl, refl, refl)
register_form BinOp.xor true d s = (refl, refl, refl)
register_form BinOp.xor false d s = (refl, refl, refl)
register_form BinOp.sdiv true d s = (refl, refl, refl)
register_form BinOp.sdiv false d s = (refl, refl, refl)
register_form BinOp.smod true d s = (refl, refl, refl)
register_form BinOp.smod false d s = (refl, refl, refl)
register_form BinOp.movsx8 true d s = (refl, refl, refl)
register_form BinOp.movsx8 false d s = (refl, refl, refl)
register_form BinOp.movsx16 true d s = (refl, refl, refl)
register_form BinOp.movsx16 false d s = (refl, refl, refl)
register_form BinOp.movsx32 true d s = (refl, refl, refl)
register_form BinOp.movsx32 false d s = (refl, refl, refl)

-- Every binary operation, encoded with its nibble and its offset in the form with a source
-- register, in the 32-bit or the 64-bit class, for a target below r10 and a source up to r10, is
-- decoded as that operation on those registers, whatever the option on division by zero is.
pub make_alu_op-encode_bin :
    (allow : Bool) (op : BinOp) (is64 : Bool) (d s pc : ℕ) (u : Unmarshaller)
    → d < 10
    → s ≤ 10
    → (make_alu_op allow pc (encode_bin op is64 d s) u).1
      ≡ ok (
          Instruction.bin (record { op = op; dst = d; v = Value.reg s; is64 = is64; lddw = false }))
make_alu_op-encode_bin allow op is64 d s pc u dl sl =
    let (hd, hs) = inst_new-fields (encode_opcode op is64) d s (marshal_bin_op_offset op) (pos 0) in
    let (register, class, immediate) = register_form op is64 d s in
    make_alu_op_register allow op is64 d s pc (encode_bin op is64 d s) u
      (decoded_op op is64 d s pc u) (hd ∙ small d (omega arith)) (hs ∙ small s (omega arith)) dl sl
      register immediate class
  where
    small : (n : ℕ) → n < 16 → n % 16 ≡ n
    small n h = omega arith
