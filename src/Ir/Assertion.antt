-- ===== src/Ir/Assertion.antt =====
-- src/ir/syntax.rs: the checks that stand before an instruction.
use prevail_rust.Base.Tests.{ℕ, Bool}
use prevail_rust.Base.Int.{ℤ}
use prevail_rust.Cfg.Label.{Label, Text}
use prevail_rust.Crab.TypeEncoding.Sets.{TypeGroup}
use prevail_rust.Ir.Isa.{Reg}
use prevail_rust.Ir.Syntax.{Value}

pub data AccessType : Type 0 where
  compare : AccessType
  read : AccessType
  write : AccessType

pub record ValidAccess : Type 0 where
  pub call_stack_depth : ℕ
  pub reg : Reg
  pub offset : ℤ
  pub width : Value
  pub or_null : Bool
  pub access_type : AccessType

-- The fields of the smaller structs are the arguments of the constructors, in their order.
pub data Assertion : Type 0 where
  comparable : Reg → Reg → (or_r2_is_number : Bool) → Assertion
  addable : (ptr num : Reg) → Assertion
  valid_divisor : Reg → (is_signed is64 : Bool) → Assertion
  valid_access : ValidAccess → Assertion
  valid_store : (mem val : Reg) → Assertion
  valid_size : Reg → (can_be_zero : Bool) → Assertion
  valid_map_key_value : (access_reg map_fd_reg : Reg) → (key : Bool) → Assertion
  valid_callback_target : Reg → Assertion
  type_constraint : Reg → TypeGroup → Assertion
  func_constraint : Reg → Assertion
  zero_ctx_offset : Reg → (or_null : Bool) → Assertion
  bounded_loop_count : Label → Assertion
  valid_arg_zero : Reg → Assertion
  valid_map_type : Reg → (allowed_map_types : ℕ) → (helper_name : Text) → Assertion
