-- ===== src/Ir/Unmarshal/Program/Decoded.antt =====
-- src/ir/unmarshal.rs: what a slot decodes to: no panic, and no jump out of the program.
use Prim.Native.Nat.{bit_and}
use prevail_rust.Base.Tests.{
  ℕ, suc, ◌+◌, ◌-◌, ◌^◌, ◌≤◌, ◌<◌, ◌≡◌, ◌⊎◌, inl, inr, refl, arith, Option, none, some, Bool, true,
  false, ◌&&◌, List, ltb, leb, ◌==◌, if◌then◌else◌, Bool-cases, leb-false→lt,
}
use prevail_rust.Base.Lists.{length, get_elem?, get_elem?-some}
use prevail_rust.Base.Int.{ℤ, pos, ◌≤ℤ◌, ◌<ℤ◌}
use prevail_rust.Cfg.Label.{Label}
use prevail_rust.Cfg.Label
use prevail_rust.Ir.Isa.{EbpfInst, InstructionClass, class_of_bits, class_from_opcode, inst_src}
use prevail_rust.Ir.Config.{ProgramInfo, EbpfVerifierOptions}
use prevail_rust.Ir.CallProto.Prototype.{EbpfPlatform, HelperPrototype}
use prevail_rust.Ir.Syntax.{Bin, Instruction}
use prevail_rust.Ir.Unmarshal.{Outcome, Unmarshaller, ok, err, panic}
use prevail_rust.Ir.Unmarshal.Alu.{make_alu_op}
use prevail_rust.Ir.Unmarshal.Mem.{make_mem_op}
use prevail_rust.Ir.Unmarshal.Lddw.{make_lddw, with_next, by_mode}
use prevail_rust.Ir.Unmarshal.Safe.{IsSafe, KeepsR10, make_alu_op-IsSafe, make_mem_op-IsSafe}
use prevail_rust.Ir.Unmarshal.Jumps.Targets.{
  FitsSlot, LandsAt, IsSound, IsSoundJump, make_jmp-IsSound,
}
use prevail_rust.Ir.Unmarshal.Merge.{
  Round, plain, map_outcome, is_half_shift, merge_shifts, with_merged, with_second,
}
use prevail_rust.Ir.Unmarshal.Program.{
  is_alu64, after_jmp, decode_lddw, decode_class, look_ahead, after_alu,
}

-- The label of a slot of the program.
pub record IsSlotLabel (count : ℕ) (l : Label) : Type 0 where
  pub is_slot : l ≡ Label.new l.from
  pub not_before : pos 0 ≤ℤ l.from
  pub not_after : l.from <ℤ pos count

-- Jumps and local calls lead to slots of the program.
abbrev pub TargetsInside : ℕ → Instruction → Type 0
TargetsInside count (Instruction.jmp j) = IsSlotLabel count j.target
TargetsInside count (Instruction.call_local l prefix) = IsSlotLabel count l
TargetsInside count _ = Unit

abbrev pub Decoded : ℕ → Outcome Instruction → Type 0
Decoded count (ok i) = TargetsInside count i
Decoded count (err e) = Unit
Decoded count panic = ⊥

abbrev pub RoundDecoded : ℕ → Outcome Round → Type 0
RoundDecoded count (ok r) = TargetsInside count r.new_ins
RoundDecoded count (err e) = Unit
RoundDecoded count panic = ⊥

pub plain-RoundDecoded :
    (count : ℕ) (skip : Bool) (o : Outcome Instruction)
    → Decoded count o
    → RoundDecoded count (map_outcome (plain skip) o)
plain-RoundDecoded count skip (ok i) h = h
plain-RoundDecoded count skip (err e) h = tt
plain-RoundDecoded count skip panic h = h

KeepsR10-TargetsInside : (count : ℕ) (i : Instruction) → KeepsR10 i → TargetsInside count i
KeepsR10-TargetsInside count (Instruction.jmp j) h = absurd h
KeepsR10-TargetsInside count (Instruction.call_local l prefix) h = absurd h
KeepsR10-TargetsInside count _ h = tt

pub IsSafe-Decoded : (count : ℕ) (o : Outcome Instruction) → IsSafe o → Decoded count o
IsSafe-Decoded count (ok i) h = KeepsR10-TargetsInside count i h
IsSafe-Decoded count (err e) h = tt
IsSafe-Decoded count panic h = h

LandsAt-IsSlotLabel :
    (pc count : ℕ) (distance : ℤ) (l : Label) → LandsAt pc count distance l → IsSlotLabel count l
LandsAt-IsSlotLabel pc count distance l h = record {
  is_slot = h.is_slot;
  not_before = h.not_before;
  not_after = h.not_after;
}

sound-TargetsInside :
    (pc count : ℕ) (inst : EbpfInst) (i : Instruction)
    → IsSoundJump pc count inst i
    → TargetsInside count i
sound-TargetsInside pc count inst (Instruction.jmp j) h = elim (h.0) [
  | inl near ↦ LandsAt-IsSlotLabel pc count inst.offset j.target near
  | inr far ↦ LandsAt-IsSlotLabel pc count inst.imm j.target far
]
sound-TargetsInside pc count inst (Instruction.call_local l prefix) h =
    LandsAt-IsSlotLabel pc count inst.imm l h
sound-TargetsInside pc count inst _ h = tt

pub jmp-RoundDecoded :
    (pc count : ℕ) (inst : EbpfInst) (o : Outcome Instruction)
    → IsSound pc count inst o
    → RoundDecoded count (after_jmp o)
jmp-RoundDecoded pc count inst (ok (Instruction.jmp j)) (IsSound.accepted _ h) =
    sound-TargetsInside pc count inst (Instruction.jmp j) h
jmp-RoundDecoded pc count inst (ok (Instruction.call_local l p)) (IsSound.accepted _ h) =
    sound-TargetsInside pc count inst (Instruction.call_local l p) h
jmp-RoundDecoded pc count inst (ok _) (IsSound.accepted _ h) = tt
jmp-RoundDecoded pc count inst (err e) s = tt
jmp-RoundDecoded pc count inst panic s = elim s [ ]

-- A wide load that is read to the end has its second slot.
by_mode-Decoded :
    (count pc : ℕ) (inst next : EbpfInst) (next_imm : ℤ) (mode : ℕ)
    → Decoded count (by_mode pc inst next_imm next mode)
by_mode-Decoded count pc inst next next_imm mode = ground arith

with_next-Decoded :
    (count pc : ℕ) (inst next : EbpfInst) (next_imm : ℤ)
    → Decoded count (with_next pc inst next_imm (some next))
with_next-Decoded count pc inst next next_imm =
    ground (arith, by_mode-Decoded count pc inst next next_imm (inst_src inst))

pub lddw-Decoded :
    (count pc : ℕ) (inst : EbpfInst) (next_imm : ℤ) (insts : List EbpfInst)
    → pc < length insts
    → Decoded count (make_lddw pc inst next_imm insts)
unfolding make_lddw
lddw-Decoded count pc inst next_imm insts inside = elim (Bool-cases (leb (length insts - 1) pc)) [
  | inl last ↦ rw (filled, last) tt
  | inr more ↦
      let below = leb-false→lt (length insts - 1) pc more in
      let (next, found) = get_elem?-some insts (suc pc) (omega arith) in
      rw (filled, more, found) (with_next-Decoded count pc inst next next_imm)
]
  where
    filled : (length insts == 0) ≡ false
    filled = ground arith

-- A shift that is merged or not is no jump.
merged-RoundDecoded :
    (count : ℕ) (b : Bin) (o : Option Bin) → TargetsInside count (with_merged b o).new_ins
merged-RoundDecoded count b none = tt
merged-RoundDecoded count b (some m) = tt

second-RoundDecoded :
    (count : ℕ) (b : Bin) (o : Outcome Instruction)
    → IsSafe o
    → RoundDecoded count (with_second b o)
second-RoundDecoded count b (ok (Instruction.bin next)) h =
    merged-RoundDecoded count b (merge_shifts b next)
second-RoundDecoded count b (ok _) h = tt
second-RoundDecoded count b (err e) h = tt
second-RoundDecoded count b panic h = absurd h

pub class_memory :
    (n : ℕ) (c : InstructionClass)
    → class_of_bits n ≡ some c
    → (c ≡ InstructionClass.ld)
      ⊎ (c ≡ InstructionClass.ldx)
      ⊎ (c ≡ InstructionClass.st)
      ⊎ (c ≡ InstructionClass.stx)
    → n < 4
class_memory n c e h = ground arith

memory-RoundDecoded :
    (count pc : ℕ) (inst : EbpfInst) (u : Unmarshaller)
    → bit_and inst.opcode 7 < 4
    → RoundDecoded count (map_outcome (plain false) (make_mem_op pc inst u).1)
memory-RoundDecoded count pc inst u h =
    plain-RoundDecoded count false (make_mem_op pc inst u).1
      (IsSafe-Decoded count (make_mem_op pc inst u).1 (make_mem_op-IsSafe pc inst u h))

abbrev pub Step : Type 0
Step = Unmarshaller × Outcome Round

pub pick-RoundDecoded :
    (count : ℕ) (test : Bool) (a b : Step)
    → RoundDecoded count a.1
    → RoundDecoded count b.1
    → RoundDecoded count (if test then a else b).1
pick-RoundDecoded count true a b h k = h
pick-RoundDecoded count false a b h k = k

module _ (insts : List EbpfInst) (info : ProgramInfo) (platform : EbpfPlatform)
    (options : EbpfVerifierOptions) where
  abbrev count : ℕ
  count = length insts

  abbrev allow : Bool
  allow = options.runtime.allow_division_by_zero

  look_ahead-RoundDecoded :
      (pc : ℕ) (b : Bin) (next : Option EbpfInst) (u : Unmarshaller)
      → RoundDecoded (length insts) (look_ahead insts info platform options pc b next u).1
  unfolding look_ahead
  look_ahead-RoundDecoded pc b none u = tt
  look_ahead-RoundDecoded pc b (some next) u =
      let second = make_alu_op allow (pc + 1) next u in
      pick-RoundDecoded (length insts) (is_alu64 (class_from_opcode next.opcode))
        (second.0, with_second b second.1) (u, ok (plain false (Instruction.bin b)))
        (second-RoundDecoded (length insts) b second.1 (make_alu_op-IsSafe allow (pc + 1) next u))
        tt

  alu-RoundDecoded :
      (pc : ℕ) (u : Unmarshaller) (o : Outcome Instruction)
      → IsSafe o
      → RoundDecoded (length insts) (after_alu insts info platform options pc (u, o)).1
  unfolding after_alu
  alu-RoundDecoded pc u (ok (Instruction.bin b)) h =
      pick-RoundDecoded (length insts) (ltb pc (length insts - 1) && is_half_shift b)
        (look_ahead insts info platform options pc b (get_elem? insts (suc pc)) u)
        (u, ok (plain false (Instruction.bin b)))
        (look_ahead-RoundDecoded pc b (get_elem? insts (suc pc)) u) tt
  alu-RoundDecoded pc u (ok (Instruction.jmp j)) h = absurd h
  alu-RoundDecoded pc u (ok (Instruction.call_local l p)) h = absurd h
  alu-RoundDecoded pc u (ok _) h = tt
  alu-RoundDecoded pc u (err e) h = tt
  alu-RoundDecoded pc u panic h = h

  module _ (small : length insts ≤ 2 ^ 31)
      (prototypes : (n : ℤ)
        → platform.is_helper_usable n ≡ true
        → (p : HelperPrototype) × (platform.try_get_helper_prototype n ≡ some p)) where
    -- The decoding of one slot of the program.
    pub class-RoundDecoded :
        (pc : ℕ) (inst : EbpfInst) (u : Unmarshaller) (c : Option InstructionClass)
        → pc < length insts
        → FitsSlot inst
        → class_from_opcode inst.opcode ≡ c
        → RoundDecoded (length insts) (decode_class insts info platform options pc inst u c).1
    unfolding decode_class decode_lddw class_from_opcode
    class-RoundDecoded pc inst u none h f e = tt
    class-RoundDecoded pc inst u (some InstructionClass.ld) h f e =
        pick-RoundDecoded (length insts) (inst.opcode == 0x18) _ _
          (plain-RoundDecoded (length insts) true _ (lddw-Decoded (length insts) pc inst _ insts h))
          (memory-RoundDecoded (length insts) pc inst u
            (class_memory _ InstructionClass.ld e (inl refl)))
    class-RoundDecoded pc inst u (some InstructionClass.ldx) h f e =
        memory-RoundDecoded (length insts) pc inst u
          (class_memory _ InstructionClass.ldx e (inr (inl refl)))
    class-RoundDecoded pc inst u (some InstructionClass.st) h f e =
        memory-RoundDecoded (length insts) pc inst u
          (class_memory _ InstructionClass.st e (inr (inr (inl refl))))
    class-RoundDecoded pc inst u (some InstructionClass.stx) h f e =
        memory-RoundDecoded (length insts) pc inst u
          (class_memory _ InstructionClass.stx e (inr (inr (inr refl))))
    class-RoundDecoded pc inst u (some InstructionClass.alu) h f e =
        alu-RoundDecoded pc (make_alu_op allow pc inst u).0 (make_alu_op allow pc inst u).1
          (make_alu_op-IsSafe allow pc inst u)
    class-RoundDecoded pc inst u (some InstructionClass.alu64) h f e =
        alu-RoundDecoded pc (make_alu_op allow pc inst u).0 (make_alu_op allow pc inst u).1
          (make_alu_op-IsSafe allow pc inst u)
    class-RoundDecoded pc inst u (some InstructionClass.jmp) h f e =
        jmp-RoundDecoded pc (length insts) inst _
          (make_jmp-IsSound pc inst insts info platform small h f prototypes)
    class-RoundDecoded pc inst u (some InstructionClass.jmp32) h f e =
        jmp-RoundDecoded pc (length insts) inst _
          (make_jmp-IsSound pc inst insts info platform small h f prototypes)
