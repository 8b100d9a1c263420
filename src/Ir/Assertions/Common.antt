-- ===== src/Ir/Assertions/Common.antt =====
-- src/ir/assertions.rs: the helpers of the extraction of assertions.
use prevail_rust.Base.Tests.{ℕ, Option, none, some, Bool, false, List, [], ◌∷◌, if◌then◌else◌}
use prevail_rust.Base.Int.{ℤ, pos}
use prevail_rust.Cfg.Label.{Label, call_stack_depth}
use prevail_rust.Crab.TypeEncoding.Sets.{TypeGroup}
use prevail_rust.Ir.Isa.{Reg}
use prevail_rust.Ir.Syntax.{Value}
use prevail_rust.Ir.Assertion.{AccessType, Assertion}

-- The register holds a number.
abbrev pub number : Reg → Assertion
number r = Assertion.type_constraint r TypeGroup.number

unfoldable pub zero_offset_ctx : Reg → Bool → List Assertion
zero_offset_ctx reg or_null =
    Assertion.type_constraint reg (if or_null then TypeGroup.ctx_or_num else TypeGroup.ctx)
    ∷ Assertion.zero_ctx_offset reg or_null
    ∷ []

unfoldable pub depth_of : Option Label → ℕ
depth_of none = 1
depth_of (some l) = call_stack_depth l

abbrev pub make_valid_access : Option Label → Reg → ℤ → Value → Bool → AccessType → Assertion
make_valid_access label reg offset width or_null access_type = Assertion.valid_access (record {
  call_stack_depth = depth_of label;
  reg = reg;
  offset = offset;
  width = width;
  or_null = or_null;
  access_type = access_type;
})

abbrev pub make_valid_access_default : Option Label → Reg → Assertion
make_valid_access_default label reg =
    make_valid_access label reg (pos 0) (Value.imm 0) false AccessType.compare
