-- ===== src/Ir/Unmarshal/Merge.antt =====
-- src/ir/unmarshal.rs: the merge of a shift to the left and one to the right by half a register, as a
-- part of a round of the loop over the slots.
use prevail_rust.Base.Tests.{ℕ, Option, none, some, Bool, true, false, ◌&&◌, ◌==◌, if◌then◌else◌}
use prevail_rust.Ir.Syntax.{BinOp, Bin, Value, Instruction}
use prevail_rust.Ir.Unmarshal.{Outcome, ok, err, panic}
pub mod Meaning

-- The variables that a round assigns.
pub record Round : Type 0 where
  pub new_ins : Instruction
  pub skip_instruction : Bool
  pub fallthrough : Bool
  pub exits : Bool

abbrev pub plain : Bool → Instruction → Round
plain skip i = record { new_ins = i; skip_instruction = skip; fallthrough = true; exits = false }

abbrev pub map_outcome {ℓ κ} : {A : Type ℓ} {B : Type κ} → (A → B) → Outcome A → Outcome B
map_outcome f (ok a) = ok (f a)
map_outcome f (err e) = err e
map_outcome f panic = panic

abbrev pub is_imm32 : Value → Bool
is_imm32 (Value.imm n) = n == 32
is_imm32 (Value.reg r) = false

abbrev pub is_lsh : BinOp → Bool
is_lsh BinOp.lsh = true
is_lsh _ = false

unfoldable pub is_half_shift : Bin → Bool
is_half_shift b = is_lsh b.op && is_imm32 b.v && b.is64

-- The instruction for both shifts, by the operation of the second one.
unfoldable pub merged : Bin → BinOp → Option Bin
merged b BinOp.rsh =
    some (record { op = BinOp.mov; dst = b.dst; v = Value.reg b.dst; is64 = false; lddw = false })
merged b BinOp.arsh =
    some
      (record { op = BinOp.movsx32; dst = b.dst; v = Value.reg b.dst; is64 = true; lddw = false })
merged b _ = none

unfoldable pub merge_shifts : Bin → Bin → Option Bin
unfolding merged
merge_shifts b next =
    if (next.dst == b.dst) && is_imm32 next.v && next.is64 then merged b next.op else none

abbrev pub with_merged : Bin → Option Bin → Round
with_merged b none = plain false (Instruction.bin b)
with_merged b (some m) = plain true (Instruction.bin m)

-- What the second slot decodes to; an error there is left to its own round.
abbrev pub with_second : Bin → Outcome Instruction → Outcome Round
with_second b (ok (Instruction.bin next)) = ok (with_merged b (merge_shifts b next))
with_second b (ok _) = ok (plain false (Instruction.bin b))
with_second b (err e) = ok (plain false (Instruction.bin b))
with_second b panic = panic
