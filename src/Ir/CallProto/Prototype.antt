-- ===== src/Ir/CallProto/Prototype.antt =====
-- src/ir/unmarshal.rs: `make_call`, from the prototype that the platform gives. The platform is code
-- of another part, a record of the functions that the decoder calls.
use prevail_rust.Base.Tests.{
  ℕ, zero, suc, ◌+◌, Option, none, some, Bool, true, false, List, [], ltb, ◌>>=◌, if◌then◌else◌,
}
use prevail_rust.Base.Int.{ℤ, pos}
use prevail_rust.Cfg.Label.{Text}
use prevail_rust.Ir.Contract.{CallKind, CallContract, Reason, Call, default_contract}
use prevail_rust.Ir.CallProto.{
  EbpfReturnType, EbpfArgumentType, ArgOutcome, apply_return_type, padded_args, process_arg,
}
pub mod Total

-- The five argument types are the elements of the source's array; the fields that `make_call` does
-- not read are left out.
pub record HelperPrototype : Type 0 where
  pub name : Text
  pub return_type : EbpfReturnType
  pub arg0 : EbpfArgumentType
  pub arg1 : EbpfArgumentType
  pub arg2 : EbpfArgumentType
  pub arg3 : EbpfArgumentType
  pub arg4 : EbpfArgumentType
  pub reallocate_packet : Bool
  pub zero_args_mask : ℕ
  pub allowed_map_types : ℕ

-- The functions of the trait that decoding a call uses.
pub record EbpfPlatform : Type 0 where
  pub try_get_helper_prototype : ℤ → Option HelperPrototype
  pub is_helper_usable : ℤ → Bool
  pub get_builtin_call : ℤ → Option Call

abbrev is_map_lookup_return : EbpfReturnType → Bool
is_map_lookup_return EbpfReturnType.ptr_to_map_value_or_null = true
is_map_lookup_return _ = false

unfoldable pub mark_unsupported : Reason → Call → Call
mark_unsupported why res = record res { is_supported = false; unsupported_reason = why }

unfoldable pub initial_call : ℤ → HelperPrototype → Call
initial_call imm proto = record {
  func = imm;
  kind = CallKind.helper;
  module_id = pos 0;
  name = proto.name;
  is_supported = true;
  unsupported_reason = Reason.no_reason;
  contract = record default_contract {
    is_map_lookup = is_map_lookup_return proto.return_type;
    reallocate_packet = proto.reallocate_packet;
    zero_args_mask = proto.zero_args_mask;
    allowed_map_types = proto.allowed_map_types;
  };
  stack_frame_prefix = [];
}

-- The loop goes on after a single argument or a pair, with the contract so far.
unfoldable pub continue : (ℕ → Call → Option Call) → ℕ → Call → ArgOutcome → Option Call
unfolding mark_unsupported
continue rounds i res ArgOutcome.single = rounds (i + 1) res
continue rounds i res ArgOutcome.pair = rounds (i + 2) res
continue rounds i res ArgOutcome.stop = some res
continue rounds i res ArgOutcome.unavailable =
    some (mark_unsupported (Reason.argument_unavailable res.name) res)
continue rounds i res ArgOutcome.mismatched_size =
    some (mark_unsupported (Reason.mismatched_size res.name) res)

-- `while i < args.len() - 1`, with fuel for the rounds; `none` is a panic or the end of the fuel.
unfoldable pub walk_args : ℕ → List EbpfArgumentType → ℕ → Call → Option Call
unfolding continue
walk_args zero args i res = none
walk_args (suc fuel) args i res =
    if ltb i 6
    then (process_arg res.contract args i >>= λ step.
        continue (λ j res'. walk_args fuel args j res') i (record res { contract = step.0 }) step.1)
    else some res

unfoldable pub call_of_prototype : ℤ → HelperPrototype → Option CallContract → Option Call
unfolding walk_args mark_unsupported
call_of_prototype imm proto none =
    some (mark_unsupported (Reason.prototype_unavailable proto.name) (initial_call imm proto))
call_of_prototype imm proto (some contract) =
    walk_args 6 (padded_args proto.arg0 proto.arg1 proto.arg2 proto.arg3 proto.arg4) 1
      (record (initial_call imm proto) { contract = contract })

unfoldable pub make_call_of : ℤ → Option HelperPrototype → Option (Option Call)
unfolding call_of_prototype initial_call
make_call_of imm none = some none
make_call_of imm (some proto) =
    call_of_prototype imm proto
      (apply_return_type proto.return_type (initial_call imm proto).contract)
    >>= λ call. some (some call)

-- The outer `none` is a panic, the inner one the error for an unknown helper.
unfoldable pub make_call_result : ℤ → EbpfPlatform → Option (Option Call)
unfolding make_call_of
make_call_result imm platform = make_call_of imm (platform.try_get_helper_prototype imm)

-- The error of `make_call_result` is a panic here.
unfoldable pub make_call : ℤ → EbpfPlatform → Option Call
unfolding make_call_result
make_call imm platform = make_call_result imm platform >>= λ result. result
