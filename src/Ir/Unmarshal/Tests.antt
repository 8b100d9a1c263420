-- ===== src/Ir/Unmarshal/Tests.antt =====
-- src/ir/unmarshal.rs: jumps, calls, merged shifts and whole programs at concrete slots.
use mathlib.Core.Path.{subst}
use prevail_rust.Base.Tests.{
  ◌≡◌, ℕ, ◌+◌, ◌^◌, ◌≤◌, zero, suc, refl, some-eq, Option, none, some, true, false, List, [], ◌∷◌,
  arith,
}
use prevail_rust.Base.Lists.{get_elem?}
use prevail_rust.Base.Int.{pos}
use prevail_rust.Ir.Isa.{EbpfInst}
use prevail_rust.Ir.Config.{ProgramInfo, default_options}
use prevail_rust.Ir.Contract.{Call}
use prevail_rust.Ir.CallProto.{EbpfReturnType, EbpfArgumentType}
use prevail_rust.Ir.CallProto.Prototype.{EbpfPlatform, HelperPrototype, make_call_result}
use prevail_rust.Ir.CallProto.Prototype.Total.{Outcome, make_call_result-Outcome}
use prevail_rust.Ir.Syntax.{BinOp, Bin, Value}
use prevail_rust.Ir.Unmarshal.{Unmarshaller}
use prevail_rust.Ir.Unmarshal.Jumps.{make_jmp}
use prevail_rust.Ir.Unmarshal.Jumps.Targets.{FitsSlot, IsSound, make_jmp-IsSound}
use prevail_rust.Ir.Unmarshal.Merge.{is_half_shift, merge_shifts, merged}
use prevail_rust.Ir.Unmarshal.Merge.Meaning.{Agree, merge_shifts-Agree}
use prevail_rust.Ir.Unmarshal.Program.{unmarshal}
use prevail_rust.Ir.Unmarshal.Program.Total.{Listed, unmarshal-Listed}

-- A helper that takes a map and a key, and returns a value of the map or null.
abbrev map_lookup : HelperPrototype
map_lookup = record {
  name = [];
  return_type = EbpfReturnType.ptr_to_map_value_or_null;
  arg0 = EbpfArgumentType.ptr_to_map;
  arg1 = EbpfArgumentType.ptr_to_map_key;
  arg2 = EbpfArgumentType.dont_care;
  arg3 = EbpfArgumentType.dont_care;
  arg4 = EbpfArgumentType.dont_care;
  reallocate_packet = false;
  zero_args_mask = 0;
  allowed_map_types = 0;
}

-- Every helper is the lookup.
abbrev platform : EbpfPlatform
platform = record {
  try_get_helper_prototype = λ n. some map_lookup;
  is_helper_usable = λ n. true;
  get_builtin_call = λ n. none;
}

abbrev info : ProgramInfo
info = record {
  program_type = record { is_privileged = false };
  line_info = [];
  builtin_call_offsets = [];
}

abbrev fresh : Unmarshaller
fresh = record { notes = []; subprogram_stack_size = pos 512 }

-- `call 1; if r0 == 0 goto +1; r0 <<= 32; r0 >>= 32; exit`
abbrev slots : List EbpfInst
slots =
    record { opcode = 0x85; dst_src = 0; offset = pos 0; imm = pos 1 }
    ∷ record { opcode = 0x15; dst_src = 0; offset = pos 1; imm = pos 0 }
    ∷ record { opcode = 0x67; dst_src = 0; offset = pos 0; imm = pos 32 }
    ∷ record { opcode = 0x77; dst_src = 0; offset = pos 0; imm = pos 32 }
    ∷ record { opcode = 0x95; dst_src = 0; offset = pos 0; imm = pos 0 }
    ∷ []

plain-FitsSlot :
    (opcode dst_src offset imm : ℕ)
    → offset ≤ 100
    → imm ≤ 100
    → FitsSlot (record { opcode = opcode; dst_src = dst_src; offset = pos offset; imm = pos imm })
plain-FitsSlot opcode dst_src offset imm h k = record {
  offset_low = omega arith;
  offset_high = omega arith;
  imm_low = omega arith;
  imm_high = omega arith;
}

fits : (k : ℕ) (i : EbpfInst) → get_elem? slots k ≡ some i → FitsSlot i
fits zero i h = subst FitsSlot (some-eq h) (plain-FitsSlot 0x85 0 0 1 (omega arith) (omega arith))
fits (suc zero) i h =
    subst FitsSlot (some-eq h) (plain-FitsSlot 0x15 0 1 0 (omega arith) (omega arith))
fits (suc (suc zero)) i h =
    subst FitsSlot (some-eq h) (plain-FitsSlot 0x67 0 0 32 (omega arith) (omega arith))
fits (suc (suc (suc zero))) i h =
    subst FitsSlot (some-eq h) (plain-FitsSlot 0x77 0 0 32 (omega arith) (omega arith))
fits (suc (suc (suc (suc zero)))) i h =
    subst FitsSlot (some-eq h) (plain-FitsSlot 0x95 0 0 0 (omega arith) (omega arith))
fits (suc (suc (suc (suc (suc k))))) i h = absurd (cc h)

make_call_result-Outcome_example :
    (result : Option Call) × (make_call_result (pos 1) platform ≡ some result)
    × Outcome (platform.try_get_helper_prototype (pos 1)) result
make_call_result-Outcome_example = make_call_result-Outcome (pos 1) platform

abbrev jump : EbpfInst
jump = record { opcode = 0x15; dst_src = 0; offset = pos 1; imm = pos 0 }

make_jmp-IsSound_example : IsSound 1 5 jump (make_jmp 1 jump slots info platform)
make_jmp-IsSound_example =
    make_jmp-IsSound 1 jump slots info platform (omega arith) (omega arith)
      (plain-FitsSlot 0x15 0 1 0 (omega arith) (omega arith)) (λ n h. (map_lookup, refl))

abbrev shift : BinOp → Bin
shift op = record { op = op; dst = 3; v = Value.imm 32; is64 = true; lddw = false }

merge_shifts-Agree_example :
    Agree
      (shift BinOp.lsh)
      (shift BinOp.rsh)
      (record { op = BinOp.mov; dst = 3; v = Value.reg 3; is64 = false; lddw = false })
      (λ r. 2 ^ 40 + 7)
unfolding is_half_shift merge_shifts merged
merge_shifts-Agree_example =
    merge_shifts-Agree (shift BinOp.lsh) (shift BinOp.rsh)
      (record { op = BinOp.mov; dst = 3; v = Value.reg 3; is64 = false; lddw = false })
      (λ r. 2 ^ 40 + 7) (omega arith) refl refl

unmarshal-Listed_example :
    Listed slots default_options (unmarshal slots info platform default_options fresh).1
unmarshal-Listed_example =
    unmarshal-Listed slots info platform default_options fresh (omega arith) fits
      (λ n h. (map_lookup, refl))
