-- ===== src/Ir/Unmarshal/Jumps/Targets.antt =====
-- src/ir/unmarshal.rs: where a decoded jump leads, and when decoding one panics.
use mathlib.Core.Path.{subst}
use prevail_rust.Base.Tests.{
  some-eq, or-false, ℕ, ◌-◌, ◌%◌, ◌^◌, ◌≤◌, ◌<◌, ◌≡◌, ◌⊎◌, inl, inr, refl, ap, arith, Option, none,
  some, Bool, true, false, ◌&&◌, List, ltb, leb, ◌==◌, if◌then◌else◌, Bool-cases, leb-false→lt,
  ltb-false→le,
}
use prevail_rust.Base.Lists.{length}
use prevail_rust.Base.Int.{ℤ, pos, negsuc, ◌+ℤ◌, ◌≤ℤ◌, ◌<ℤ◌, int_laws, ltb_ℤ, pos_part, neg_part}
use prevail_rust.Cfg.Label.{Label}
use prevail_rust.Cfg.Label
use prevail_rust.Ir.Isa.{EbpfInst, JmpOp, jmp_op_from_opcode, inst_dst, inst_src, bits, signed}
use prevail_rust.Ir.Config.{ProgramInfo}
use prevail_rust.Ir.CallProto.Prototype.{EbpfPlatform, HelperPrototype}
use prevail_rust.Ir.CallProto.Prototype.Total.{make_call-some}
use prevail_rust.Ir.Syntax.{Value, Instruction, Condition}
use prevail_rust.Ir.Unmarshal.{Message, UnmarshalError, Outcome, ok, err}
use prevail_rust.Ir.Unmarshal.Jumps.{
  reject_if, target_pc, label_at, called, resolve_call, call_local, callx, callx_register,
  immediate_register, call_btf, call_helper, make_call_jmp, make_exit, make_ja, make_conditional,
  make_jmp, by_jmp_op, has_src_reg, contains,
}

-- The fields of a slot are an `i16` and an `i32`.
pub record FitsSlot (inst : EbpfInst) : Type 0 where
  pub offset_low : negsuc (2 ^ 15 - 1) ≤ℤ inst.offset
  pub offset_high : inst.offset ≤ℤ pos (2 ^ 15 - 1)
  pub imm_low : negsuc (2 ^ 31 - 1) ≤ℤ inst.imm
  pub imm_high : inst.imm ≤ℤ pos (2 ^ 31 - 1)

-- A label of the program, as many slots as the distance after the next one.
pub record LandsAt (pc count : ℕ) (distance : ℤ) (l : Label) : Type 0 where
  pub is_slot : l ≡ Label.new l.from
  pub not_before : pos 0 ≤ℤ l.from
  pub not_after : l.from <ℤ pos count
  pub at_distance : l.from ≡ pos pc +ℤ pos 1 +ℤ distance

abbrev IsRegisterOrImm : Value → Type 0
IsRegisterOrImm (Value.imm n) = Unit
IsRegisterOrImm (Value.reg r) = r ≤ 10

-- What an accepted slot of a jump class is, by its instruction.
abbrev pub IsSoundJump : ℕ → ℕ → EbpfInst → Instruction → Type 0
IsSoundJump pc count inst (Instruction.jmp j) =
    (LandsAt pc count inst.offset j.target ⊎ LandsAt pc count inst.imm j.target)
    × ((c : Condition)
        → j.cond ≡ some c
        → (c.left ≤ 10) × IsRegisterOrImm c.right × LandsAt pc count inst.offset j.target)
IsSoundJump pc count inst (Instruction.call_local l prefix) = LandsAt pc count inst.imm l
IsSoundJump pc count inst (Instruction.callx r) = r ≤ 10
IsSoundJump pc count inst (Instruction.call_btf id module_id) = pos 0 ≤ℤ module_id
IsSoundJump pc count inst _ = Unit

-- The outcome of decoding: no panic, and a sound instruction if it is one.
pub data IsSound (pc count : ℕ) (inst : EbpfInst) : Outcome Instruction → Type 0 where
  accepted : (i : Instruction) → IsSoundJump pc count inst i → IsSound pc count inst (ok i)
  rejected : (e : UnmarshalError) → IsSound pc count inst (err e)

-- A label cut to 32 bits keeps a target in range.
same_target :
    (z : ℤ)
    → negsuc (2 ^ 31 - 1) ≤ℤ z
    → z <ℤ pos (2 ^ 33)
    → bits 64 z < 2 ^ 31
    → (signed 32 (bits 64 z % 2 ^ 32) ≡ z) × (pos 0 ≤ℤ z) × (z ≡ pos (bits 64 z))
same_target (pos n) low high h = ground arith
same_target (negsuc n) low high h = absurd (omega arith)

lands :
    (pc count : ℕ) (distance : ℤ)
    → count ≤ 2 ^ 31
    → pc < count
    → negsuc (2 ^ 31 - 1) ≤ℤ distance
    → distance ≤ℤ pos (2 ^ 31 - 1)
    → target_pc pc distance < count
    → LandsAt pc count distance (label_at (target_pc pc distance))
unfolding Label.new
lands pc count distance small inside low high h =
    let z = pos pc +ℤ pos 1 +ℤ distance in
    let (e, first, t) = same_target z (omega int_laws) (omega int_laws) (omega arith) in
    rw e (record {
      is_slot = refl;
      not_before = first;
      not_after = omega (arith, ap pos_part t, ap neg_part t);
      at_distance = refl;
    })

module _ (pc count : ℕ) (inst : EbpfInst) where
  reject-IsSound :
      (failed : Bool) (message : Message) (rest : Outcome Instruction)
      → (failed ≡ false → IsSound pc count inst rest)
      → IsSound pc count inst (reject_if failed pc message rest)
  unfolding reject_if
  reject-IsSound true message rest f = IsSound.rejected _
  reject-IsSound false message rest f = f refl

  exit-IsSound : IsSound pc count inst (make_exit pc inst)
  unfolding make_exit
  exit-IsSound = reject-IsSound _ _ _ (λ _. reject-IsSound _ _ _ (λ _.
      reject-IsSound _ _ _
        (λ _. reject-IsSound _ _ _ (λ _. reject-IsSound _ _ _ (λ _. IsSound.accepted _ tt)))))

  immediate_register-IsSound : IsSound pc count inst (immediate_register pc inst)
  unfolding immediate_register
  immediate_register-IsSound = reject-IsSound _ _ _ (λ _.
      reject-IsSound _ _ _ (λ range. IsSound.accepted _ (small inst.imm (or-false _ _ range))))
    where
      small : (n : ℤ) → (ltb_ℤ n (pos 0) ≡ false) × (ltb_ℤ (pos 10) n ≡ false) → bits 8 n ≤ 10
      small (pos n) h = ground arith
      small (negsuc n) h = ground arith

  callx_register-IsSound :
      (named : Bool) → inst_dst inst ≤ 10 → IsSound pc count inst (callx_register named pc inst)
  callx_register-IsSound true h = immediate_register-IsSound
  callx_register-IsSound false h = IsSound.accepted _ h

  callx-IsSound : IsSound pc count inst (callx pc inst)
  unfolding callx
  callx-IsSound = reject-IsSound _ _ _ (λ _.
      reject-IsSound _ _ _
        (λ _. reject-IsSound _ _ _ (λ low. callx_register-IsSound _ (ltb-false→le _ _ low))))

  call_btf-IsSound : IsSound pc count inst (call_btf pc inst)
  unfolding call_btf
  call_btf-IsSound =
      reject-IsSound _ _ _
        (λ _. reject-IsSound _ _ _ (λ low. IsSound.accepted _ (ltb-false→le _ _ low)))

  module _ (small : count ≤ 2 ^ 31) (inside : pc < count) (fits : FitsSlot inst) where
    lands_offset :
        leb count (target_pc pc inst.offset) ≡ false
        → LandsAt pc count inst.offset (label_at (target_pc pc inst.offset))
    lands_offset h =
        lands pc count inst.offset small inside (omega (arith, fits.offset_low))
          (omega (arith, fits.offset_high)) (leb-false→lt _ _ h)

    lands_imm :
        leb count (target_pc pc inst.imm) ≡ false
        → LandsAt pc count inst.imm (label_at (target_pc pc inst.imm))
    lands_imm h =
        lands pc count inst.imm small inside fits.imm_low fits.imm_high (leb-false→lt _ _ h)

    call_local-IsSound : IsSound pc count inst (call_local pc inst count)
    unfolding call_local
    call_local-IsSound = reject-IsSound _ _ _ (λ _. reject-IsSound _ _ _ (λ _.
        reject-IsSound _ _ _ (λ _. reject-IsSound _ _ _ (λ h. IsSound.accepted _ (lands_imm h)))))

    ja_lands :
        (is_long : Bool)
        → leb count (target_pc pc (if is_long then inst.imm else inst.offset)) ≡ false
        → LandsAt pc count inst.offset
            (label_at (target_pc pc (if is_long then inst.imm else inst.offset)))
          ⊎ LandsAt pc count inst.imm
              (label_at (target_pc pc (if is_long then inst.imm else inst.offset)))
    ja_lands true h = inr (lands_imm h)
    ja_lands false h = inl (lands_offset h)

    ja-IsSound : IsSound pc count inst (make_ja pc inst count)
    unfolding make_ja
    ja-IsSound = reject-IsSound _ _ _ (λ _. reject-IsSound _ _ _ (λ _. reject-IsSound _ _ _ (λ _.
        reject-IsSound _ _ _ (λ _. reject-IsSound _ _ _ (λ _. reject-IsSound _ _ _ (λ _.
          reject-IsSound _ _ _
            (λ h. IsSound.accepted _ (ja_lands (inst.opcode == 6) h, λ c e. cc))))))))

    right_operand :
        (is_reg : Bool) (n : ℕ)
        → (is_reg && ltb 10 (inst_src inst)) ≡ false
        → IsRegisterOrImm (if is_reg then Value.reg (inst_src inst) else Value.imm n)
    right_operand true n h = ltb-false→le _ _ h
    right_operand false n h = tt

    conditional-IsSound : (op : JmpOp) → IsSound pc count inst (make_conditional pc inst count op)
    unfolding make_conditional
    conditional-IsSound op = reject-IsSound _ _ _ (λ _. reject-IsSound _ _ _ (λ _.
        reject-IsSound _ _ _ (λ h. reject-IsSound _ _ _ (λ left. reject-IsSound _ _ _ (λ right.
          IsSound.accepted _ (
            inl (lands_offset h),
            λ c e.
                subst
                  (λ (c : Condition).
                    (c.left ≤ 10)
                    × IsRegisterOrImm c.right
                    × LandsAt pc count inst.offset (label_at (target_pc pc inst.offset)))
                  (some-eq e)
                  (ltb-false→le _ _ left, right_operand (has_src_reg inst) _ right, lands_offset h),
          ))))))

    module _ (info : ProgramInfo) (platform : EbpfPlatform)
        (has_prototypes : (n : ℤ)
          → platform.is_helper_usable n ≡ true
          → (p : HelperPrototype) × (platform.try_get_helper_prototype n ≡ some p)) where
      called-IsSound :
          (imm : ℤ) → IsSound pc count inst (called (resolve_call pc imm info platform))
      unfolding resolve_call
      called-IsSound imm = elim (Bool-cases (contains info.builtin_call_offsets pc)) [
        | inl builtin ↦ rw builtin (IsSound.accepted _ tt)
        | inr plain ↦ rw plain (elim (Bool-cases (platform.is_helper_usable imm)) [
          | inr unusable ↦ rw unusable (IsSound.accepted _ tt)
          | inl usable ↦
              let (proto, found) = has_prototypes imm usable in
              let (call, e) = make_call-some imm platform proto found in
              rw (usable, e) (IsSound.accepted _ tt)
        ])
      ]

      helper-IsSound : IsSound pc count inst (call_helper pc inst info platform)
      unfolding call_helper
      helper-IsSound =
          reject-IsSound _ _ _ (λ _. reject-IsSound _ _ _ (λ _. called-IsSound inst.imm))

      mode-IsSound :
          (is_local is_reg is_btf : Bool)
          → IsSound pc count inst (
              if is_local
              then call_local pc inst count
              else if is_reg
              then callx pc inst
              else if is_btf
              then call_btf pc inst
              else call_helper pc inst info platform)
      mode-IsSound true r b = call_local-IsSound
      mode-IsSound false true b = callx-IsSound
      mode-IsSound false false true = call_btf-IsSound
      mode-IsSound false false false = helper-IsSound

      call-IsSound : IsSound pc count inst (make_call_jmp pc inst count info platform)
      unfolding make_call_jmp
      call-IsSound = reject-IsSound _ _ _ (λ _.
          reject-IsSound _ _ _
            (λ _. mode-IsSound (inst_src inst == 1) (has_src_reg inst) (inst_src inst == 2)))

      by_jmp_op-IsSound :
          (op : Option JmpOp) → IsSound pc count inst (by_jmp_op pc inst count info platform op)
      by_jmp_op-IsSound none = IsSound.rejected _
      by_jmp_op-IsSound (some JmpOp.call) = call-IsSound
      by_jmp_op-IsSound (some JmpOp.exit) = exit-IsSound
      by_jmp_op-IsSound (some JmpOp.ja) = ja-IsSound
      by_jmp_op-IsSound (some JmpOp.jeq) = conditional-IsSound JmpOp.jeq
      by_jmp_op-IsSound (some JmpOp.jgt) = conditional-IsSound JmpOp.jgt
      by_jmp_op-IsSound (some JmpOp.jge) = conditional-IsSound JmpOp.jge
      by_jmp_op-IsSound (some JmpOp.jset) = conditional-IsSound JmpOp.jset
      by_jmp_op-IsSound (some JmpOp.jne) = conditional-IsSound JmpOp.jne
      by_jmp_op-IsSound (some JmpOp.jsgt) = conditional-IsSound JmpOp.jsgt
      by_jmp_op-IsSound (some JmpOp.jsge) = conditional-IsSound JmpOp.jsge
      by_jmp_op-IsSound (some JmpOp.jlt) = conditional-IsSound JmpOp.jlt
      by_jmp_op-IsSound (some JmpOp.jle) = conditional-IsSound JmpOp.jle
      by_jmp_op-IsSound (some JmpOp.jslt) = conditional-IsSound JmpOp.jslt
      by_jmp_op-IsSound (some JmpOp.jsle) = conditional-IsSound JmpOp.jsle

-- For a slot of a program of at most 2^31 slots, its offset an i16 and its immediate an i32, and
-- a platform with a prototype for every helper that it calls usable, make_jmp does not panic. A
-- jump that it accepts leads to a slot, as far after the next one as the offset says, or the
-- immediate where the jump has no condition; a local call leads to a slot, as far after the next
-- one as the immediate says. The registers of an accepted condition or indirect call are at most
-- r10, and the module of an accepted call by type id is not negative.
pub make_jmp-IsSound :
    (pc : ℕ) (inst : EbpfInst) (insts : List EbpfInst) (info : ProgramInfo)
    (platform : EbpfPlatform)
    → length insts ≤ 2 ^ 31
    → pc < length insts
    → FitsSlot inst
    → ((n : ℤ)
        → platform.is_helper_usable n ≡ true
        → (p : HelperPrototype) × (platform.try_get_helper_prototype n ≡ some p))
    → IsSound pc (length insts) inst (make_jmp pc inst insts info platform)
unfolding make_jmp
make_jmp-IsSound pc inst insts info platform small inside fits prototypes =
    by_jmp_op-IsSound pc (length insts) inst small inside fits info platform prototypes
      (jmp_op_from_opcode inst.opcode)
