-- ===== src/Ir/Tests.antt =====
-- The laws of the decoder at concrete slots.
use prevail_rust.Base.Tests.{some, ◌≡◌, refl, true, false, [], ◌∷◌, ◌^◌, arith}
use prevail_rust.Base.Int.{pos, negsuc, ℤ, ◌≤ℤ◌, ◌+ℤ◌}
use prevail_rust.Ir.Isa.{EbpfInst, merge, split}
use prevail_rust.Ir.Isa.Pack.{IsI32, split-merge}
use prevail_rust.Ir.Config.{default_config, validate, total_stack_size, ptr_max}
use prevail_rust.Ir.Config.Ranges.{total_stack_size-valid}
use prevail_rust.Ir.Syntax.{BinOp, Value, Instruction}
use prevail_rust.Ir.Unmarshal.{Unmarshaller, ok}
use prevail_rust.Ir.Unmarshal.Alu.{make_alu_op}
use prevail_rust.Ir.Unmarshal.Mem.{make_mem_op}
use prevail_rust.Ir.Unmarshal.Lddw.{make_lddw}
use prevail_rust.Ir.Unmarshal.RoundTrip.{encode_bin, make_alu_op-encode_bin}
use prevail_rust.Ir.Unmarshal.Safe.{IsSafe, make_mem_op-IsSafe}
use prevail_rust.Ir.Unmarshal.Wide.{first_slot, second_slot, make_lddw-merge}

abbrev fresh : Unmarshaller
fresh = record { notes = [] ∷ []; subprogram_stack_size = pos 512 }

-- `r1 = *(u32 *)(r10 - 8)`
abbrev load : EbpfInst
load = record { opcode = 0x61; dst_src = 0xa1; offset = negsuc 7; imm = pos 0 }

split-merge_example :
    (merge (split (2 ^ 63)).lo (split (2 ^ 63)).hi ≡ 2 ^ 63)
    × (IsI32 (split (2 ^ 63)).lo × IsI32 (split (2 ^ 63)).hi)
    × ((split (merge (negsuc 0) (pos 7))).lo ≡ negsuc 0)
    × ((split (merge (negsuc 0) (pos 7))).hi ≡ pos 7)
split-merge_example =
    split-merge (2 ^ 63) (negsuc 0) (pos 7) (omega arith) (omega arith, omega arith)
      (omega arith, omega arith)

make_alu_op-encode_bin_example :
    (make_alu_op false 0 (encode_bin BinOp.smod true 3 10) fresh).1
    ≡ ok (
        Instruction.bin
          (record { op = BinOp.smod; dst = 3; v = Value.reg 10; is64 = true; lddw = false }))
make_alu_op-encode_bin_example =
    make_alu_op-encode_bin false BinOp.smod true 3 10 0 fresh (omega arith) (omega arith)

make_mem_op-IsSafe_example : IsSafe (make_mem_op 0 load fresh).1
make_mem_op-IsSafe_example = make_mem_op-IsSafe 0 load fresh (omega arith)

make_lddw-merge_example :
    make_lddw 0 (first_slot 10 (pos 1)) (pos 2) (first_slot 10 (pos 1) ∷ second_slot (pos 2) ∷ [])
    ≡ ok (
        Instruction.bin (record {
          op = BinOp.mov;
          dst = 10;
          v = Value.imm (merge (pos 1) (pos 2));
          is64 = true;
          lddw = true;
        }))
make_lddw-merge_example =
    make_lddw-merge 0 10 (pos 1) (pos 2) (first_slot 10 (pos 1) ∷ second_slot (pos 2) ∷ [])
      (omega arith) refl

total_stack_size-valid_example :
    (total : ℤ) × (total_stack_size default_config ≡ some total)
    × (default_config.subprogram_stack_size ≤ℤ total)
    × (total ≤ℤ pos (2 ^ 27))
    × (default_config.max_packet_size ≤ℤ ptr_max default_config +ℤ pos 1)
unfolding validate default_config
total_stack_size-valid_example = total_stack_size-valid default_config refl
