-- ===== src/Ir/Assertions/Tests.antt =====
-- src/ir/assertions.rs: the assertions of a call and of an access at concrete instructions.
use prevail_rust.Base.Tests.{◌≡◌, refl, none, some, true, false, List, [], ◌∷◌, arith}
use prevail_rust.Base.Int.{pos, negsuc}
use prevail_rust.Ir.Isa.{AccessSize}
use prevail_rust.Ir.Config.{ProgramInfo, default_config, validate}
use prevail_rust.Ir.Contract.{Call, default_contract, CallKind, Reason, ArgSingleKind}
use prevail_rust.Ir.CallProto.{
  EbpfReturnType, EbpfArgumentType, apply_return_type, padded_args, process_arg,
}
use prevail_rust.Ir.CallProto.Prototype.{EbpfPlatform, HelperPrototype, make_call}
use prevail_rust.Ir.Syntax.{Mem, Value}
use prevail_rust.Ir.Assertion.{Assertion}
use prevail_rust.Ir.Assertions.{assertions_mem}
use prevail_rust.Ir.Assertions.Memory.{IsChecked, assertions_mem-IsChecked}
use prevail_rust.Ir.Assertions.Calls.{assertions_call}
use prevail_rust.Ir.Assertions.Calls.Arguments.{is_some, maps_first}
use prevail_rust.Ir.Assertions.Calls.Registers.{AllNameArgs, make_call-assertions_call}

abbrev info : ProgramInfo
info = record {
  program_type = record { is_privileged = false };
  line_info = [];
  builtin_call_offsets = [];
}

-- A lookup in a map.
abbrev lookup : HelperPrototype
lookup = record {
  name = [];
  return_type = EbpfReturnType.ptr_to_map_value_or_null;
  arg0 = EbpfArgumentType.ptr_to_map;
  arg1 = EbpfArgumentType.ptr_to_map_key;
  arg2 = EbpfArgumentType.dont_care;
  arg3 = EbpfArgumentType.dont_care;
  arg4 = EbpfArgumentType.dont_care;
  reallocate_packet = false;
  zero_args_mask = 0;
  allowed_map_types = 0;
}

abbrev platform : EbpfPlatform
platform = record {
  try_get_helper_prototype = λ n. some lookup;
  is_helper_usable = λ n. true;
  get_builtin_call = λ n. none;
}

-- `*(u64 *)(r10 - 8) = r1`
abbrev spill : Mem
spill = record {
  access = record { width = AccessSize.dword; basereg = 10; offset = negsuc 7 };
  value = Value.reg 1;
  is_load = false;
  is_signed = false;
}

assertions_mem-IsChecked_example :
    (checks : List Assertion) × (assertions_mem spill info default_config none ≡ some checks)
    × IsChecked spill default_config none checks
unfolding default_config validate
assertions_mem-IsChecked_example =
    assertions_mem-IsChecked spill info default_config none refl (omega arith) (omega arith)

-- The call of the lookup.
abbrev lookup_call : Call
lookup_call = record {
  func = pos 7;
  kind = CallKind.helper;
  module_id = pos 0;
  name = [];
  is_supported = true;
  unsupported_reason = Reason.no_reason;
  contract = record default_contract {
    singles =
        record { kind = ArgSingleKind.map_fd; or_null = false; reg = 1 }
        ∷ record { kind = ArgSingleKind.ptr_to_map_key; or_null = false; reg = 2 }
        ∷ [];
    is_map_lookup = true;
  };
  stack_frame_prefix = [];
}

make_call-assertions_call_example :
    (is_some (assertions_call lookup_call info none)
      ≡ maps_first false lookup_call.contract.singles)
    × ((checks : List Assertion)
        → assertions_call lookup_call info none ≡ some checks
        → AllNameArgs checks)
unfolding make_call apply_return_type padded_args process_arg
make_call-assertions_call_example =
    make_call-assertions_call (pos 7) platform lookup_call info none refl
