-- ===== src/Ir/Contract.antt =====
-- src/ir/syntax.rs: what a call requires of its arguments and what it returns. A string is the list
-- of its code points.
use prevail_rust.Base.Tests.{ℕ, Option, none, Bool, false, List, []}
use prevail_rust.Base.Int.{ℤ}
use prevail_rust.Cfg.Label.{Text}
use prevail_rust.Crab.TypeEncoding.{TypeEncoding}
use prevail_rust.Ir.Isa.{Reg}

pub data ArgSingleKind : Type 0 where
  map_fd : ArgSingleKind
  map_fd_programs : ArgSingleKind
  ptr_to_map_key : ArgSingleKind
  ptr_to_map_value : ArgSingleKind
  ptr_to_ctx : ArgSingleKind
  ptr_to_stack : ArgSingleKind
  ptr_to_func : ArgSingleKind
  anything : ArgSingleKind
  ptr_to_socket : ArgSingleKind
  ptr_to_btf_id : ArgSingleKind
  ptr_to_alloc_mem : ArgSingleKind
  ptr_to_spin_lock : ArgSingleKind
  ptr_to_timer : ArgSingleKind
  const_size_or_zero : ArgSingleKind
  ptr_to_writable_long : ArgSingleKind
  ptr_to_writable_int : ArgSingleKind

pub record ArgSingle : Type 0 where
  pub kind : ArgSingleKind
  pub or_null : Bool
  pub reg : Reg

pub data ArgPairKind : Type 0 where
  ptr_to_readable_mem : ArgPairKind
  ptr_to_writable_mem : ArgPairKind

pub record ArgPair : Type 0 where
  pub kind : ArgPairKind
  pub or_null : Bool
  pub mem : Reg
  pub size : Reg
  pub can_be_zero : Bool

pub data CallKind : Type 0 where
  helper : CallKind
  kfunc : CallKind
  builtin : CallKind

pub record CallContract : Type 0 where
  pub singles : List ArgSingle
  pub pairs : List ArgPair
  pub return_ptr_type : Option TypeEncoding
  pub return_nullable : Bool
  pub is_map_lookup : Bool
  pub reallocate_packet : Bool
  pub alloc_size_reg : Option Reg
  pub zero_args_mask : ℕ
  pub allowed_map_types : ℕ

abbrev pub default_contract : CallContract
default_contract = record {
  singles = [];
  pairs = [];
  return_ptr_type = none;
  return_nullable = false;
  is_map_lookup = false;
  reallocate_packet = false;
  alloc_size_reg = none;
  zero_args_mask = 0;
  allowed_map_types = 0;
}

-- The texts of `unsupported_reason`; the source prints the name of the prototype into some.
pub data Reason : Type 0 where
  no_reason : Reason
  helper_unavailable : Reason
  prototype_unavailable : Text → Reason
  argument_unavailable : Text → Reason
  mismatched_size : Text → Reason
  other_reason : Text → Reason

pub record Call : Type 0 where
  pub func : ℤ
  pub kind : CallKind
  pub module_id : ℤ
  pub name : Text
  pub is_supported : Bool
  pub unsupported_reason : Reason
  pub contract : CallContract
  pub stack_frame_prefix : Text
