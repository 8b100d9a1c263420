-- ===== src/Ir/Unmarshal/Program.antt =====
-- src/ir/unmarshal.rs: `unmarshal`, the loop over the slots of a program.
use Prim.Native.Nat.{bit_and}
use prevail_rust.Base.Tests.{
  ℕ, zero, suc, ◌+◌, ◌-◌, ◌%◌, ◌^◌, Option, none, some, Bool, true, false, not, ◌&&◌, List, [], ◌∷◌,
  ◌++◌, ltb, ◌==◌, if◌then◌else◌,
}
use prevail_rust.Base.Lists.{length, get_elem?}
use prevail_rust.Base.Int.{ℤ, pos}
use prevail_rust.Base.Maps.{get, nat_ord}
use prevail_rust.Cfg.Label.{Label}
use prevail_rust.Cfg.Label
use prevail_rust.Ir.Isa.{EbpfInst, InstructionClass, class_from_opcode, inst_cls_mask, signed}
use prevail_rust.Ir.Config.{ProgramInfo, BtfLineInfo, EbpfVerifierOptions, OptionError, validate}
use prevail_rust.Ir.CallProto.Prototype.{EbpfPlatform}
use prevail_rust.Ir.Syntax.{BinOp, Bin, Value, Instruction, Condition, Jmp}
use prevail_rust.Ir.Unmarshal.{
  Message, UnmarshalError, Outcome, Note, Unmarshaller, ok, err, panic, note, note_next_pc, invalid,
}
use prevail_rust.Ir.Unmarshal.Merge.{
  Round, plain, map_outcome, is_half_shift, merged, merge_shifts, with_second,
}
use prevail_rust.Ir.Unmarshal.Alu.{make_alu_op}
use prevail_rust.Ir.Unmarshal.Mem.{make_mem_op}
use prevail_rust.Ir.Unmarshal.Lddw.{make_lddw}
use prevail_rust.Ir.Unmarshal.Jumps.{make_jmp}
pub mod Decoded
pub mod Total

abbrev inst_op_lddw_imm : ℕ
inst_op_lddw_imm = 0x18

abbrev pub is_alu64 : Option InstructionClass → Bool
is_alu64 (some InstructionClass.alu64) = true
is_alu64 _ = false

abbrev is_conditional : Option Condition → Bool
is_conditional none = false
is_conditional (some c) = true

abbrev pub after_jmp : Outcome Instruction → Outcome Round
after_jmp (ok (Instruction.exit prefix)) = ok (record {
  new_ins = Instruction.exit prefix;
  skip_instruction = false;
  fallthrough = false;
  exits = true;
})
after_jmp (ok (Instruction.jmp j)) = ok (record {
  new_ins = Instruction.jmp j;
  skip_instruction = false;
  fallthrough = is_conditional j.cond;
  exits = false;
})
after_jmp o = map_outcome (plain false) o

abbrev imm_of : Option EbpfInst → ℤ
imm_of none = pos 0
imm_of (some next) = next.imm

-- What the loop has when it starts a round.
pub record Loop : Type 0 where
  pub unmarshaller : Unmarshaller
  pub prog : List (Label × Instruction × Option BtfLineInfo)
  pub exit_count : ℕ

abbrev pub note_if : Bool → Note → Unmarshaller → Unmarshaller
note_if b what u = if b then note what u else u

module _ (insts : List EbpfInst) (info : ProgramInfo) (platform : EbpfPlatform)
    (options : EbpfVerifierOptions) where
  -- Decoding the next slot may note something there as well.
  unfoldable pub look_ahead :
      ℕ → Bin → Option EbpfInst → Unmarshaller → Unmarshaller × Outcome Round
  unfolding merge_shifts merged
  look_ahead pc b none u = (u, ok (plain false (Instruction.bin b)))
  look_ahead pc b (some next) u =
      if is_alu64 (class_from_opcode next.opcode)
      then (let second = make_alu_op options.runtime.allow_division_by_zero (pc + 1) next u in
          (second.0, with_second b second.1))
      else (u, ok (plain false (Instruction.bin b)))

  -- The read of the next slot is in range, since the test `pc < insts.len() - 1` comes first.
  abbrev pub after_alu : ℕ → Unmarshaller × Outcome Instruction → Unmarshaller × Outcome Round
  unfolding is_half_shift
  after_alu pc (u, ok (Instruction.bin b)) =
      if ltb pc (length insts - 1) && is_half_shift b
      then look_ahead pc b (get_elem? insts (suc pc)) u
      else (u, ok (plain false (Instruction.bin b)))
  after_alu pc (u, o) = (u, map_outcome (plain false) o)

  unfoldable pub decode_lddw : ℕ → EbpfInst → Unmarshaller → Unmarshaller × Outcome Round
  decode_lddw pc inst u = (
    u,
    map_outcome (plain true) (
        make_lddw pc inst
          (if ltb pc (length insts - 1) then imm_of (get_elem? insts (suc pc)) else pos 0) insts),
  )

  abbrev decode_mem : ℕ → EbpfInst → Unmarshaller → Unmarshaller × Outcome Round
  decode_mem pc inst u =
      let decoded = make_mem_op pc inst u in (decoded.0, map_outcome (plain false) decoded.1)

  -- The `match` on the class of the slot.
  unfoldable pub decode_class :
      ℕ → EbpfInst → Unmarshaller → Option InstructionClass → Unmarshaller × Outcome Round
  unfolding decode_lddw is_half_shift look_ahead merge_shifts merged
  decode_class pc inst u none =
      (u, invalid pc (Message.invalid_class (bit_and inst.opcode inst_cls_mask)))
  decode_class pc inst u (some InstructionClass.ld) =
      if inst.opcode == inst_op_lddw_imm then decode_lddw pc inst u else decode_mem pc inst u
  decode_class pc inst u (some InstructionClass.ldx) = decode_mem pc inst u
  decode_class pc inst u (some InstructionClass.st) = decode_mem pc inst u
  decode_class pc inst u (some InstructionClass.stx) = decode_mem pc inst u
  decode_class pc inst u (some InstructionClass.alu) =
      after_alu pc (make_alu_op options.runtime.allow_division_by_zero pc inst u)
  decode_class pc inst u (some InstructionClass.alu64) =
      after_alu pc (make_alu_op options.runtime.allow_division_by_zero pc inst u)
  decode_class pc inst u (some InstructionClass.jmp) =
      (u, after_jmp (make_jmp pc inst insts info platform))
  decode_class pc inst u (some InstructionClass.jmp32) =
      (u, after_jmp (make_jmp pc inst insts info platform))

  -- `exit_count` after a round.
  abbrev pub exits_after : Round → Loop → ℕ
  exits_after r loop = if r.exits then loop.exit_count + 1 else loop.exit_count

  -- The rest of a round: the notes, the new entry, and one or two steps forward.
  abbrev pub advance : ℕ → Unmarshaller → Round → Loop → ℕ × Loop
  advance pc u r loop =
      let noted =
        note_if ((pc == length insts - 1) && r.fallthrough) Note.fallthrough_in_last_instruction
          u in
      let line = if options.verbosity_opts.print_line_info then get pc info.line_info else none in
      let next = note_next_pc noted in
      (
        if r.skip_instruction then suc (suc pc) else suc pc,
        record {
          unmarshaller = if r.skip_instruction then note_next_pc next else next;
          prog = loop.prog ++ ((Label.new (signed 32 (pc % 2 ^ 32)), r.new_ins, line) ∷ []);
          exit_count = exits_after r loop;
        },
      )

  -- `exit_count` is an `i32`, whose overflow panics. The state when a decoding fails is that of its
  -- notes.
  abbrev pub after_round :
      (ℕ → Loop → Unmarshaller × Outcome Loop)
      → ℕ
      → Loop
      → Unmarshaller × Outcome Round
      → Unmarshaller × Outcome Loop
  after_round rounds pc loop (u, ok r) =
      let step = advance pc u r loop in
      if ltb (exits_after r loop) (2 ^ 31) then rounds step.0 step.1 else (u, panic)
  after_round rounds pc loop (u, err e) = (u, err e)
  after_round rounds pc loop (u, panic) = (u, panic)

  abbrev pub run_slot :
      (ℕ → Loop → Unmarshaller × Outcome Loop)
      → ℕ
      → Loop
      → Option EbpfInst
      → Unmarshaller × Outcome Loop
  run_slot rounds pc loop none = (loop.unmarshaller, ok loop)
  run_slot rounds pc loop (some inst) =
      after_round rounds pc loop
        (decode_class pc inst loop.unmarshaller (class_from_opcode inst.opcode))

  -- `while pc < insts.len()`: a slot is there exactly while the test holds.
  unfoldable pub run : ℕ → ℕ → Loop → Unmarshaller × Outcome Loop
  unfolding decode_class
  run zero pc loop = (loop.unmarshaller, panic)
  run (suc fuel) pc loop = run_slot (λ next l. run fuel next l) pc loop (get_elem? insts pc)

abbrev pub Program : Type 0
Program = List (Label × Instruction × Option BtfLineInfo)

abbrev pub finish : Unmarshaller × Outcome Loop → Unmarshaller × Outcome Program
finish (u, ok loop) =
    (note_if (loop.exit_count == 0) Note.no_exit_instruction loop.unmarshaller, ok loop.prog)
finish (u, err e) = (u, err e)
finish (u, panic) = (u, panic)

abbrev pub start : Unmarshaller → Loop
start u = record { unmarshaller = note_next_pc u; prog = []; exit_count = 0 }

-- The `?` on the options, then the rest of `unmarshal`; every slot takes one round at most.
abbrev pub unmarshal_valid :
    List EbpfInst
    → ProgramInfo
    → EbpfPlatform
    → EbpfVerifierOptions
    → Option OptionError
    → Unmarshaller
    → Unmarshaller × Outcome Program
unfolding run
unmarshal_valid insts info platform options (some e) u = (u, err (UnmarshalError.invalid_options e))
unmarshal_valid [] info platform options none u = (u, err UnmarshalError.zero_length_program)
unmarshal_valid (first ∷ rest) info platform options none u = finish (
    run (first ∷ rest) info platform options (suc (length (first ∷ rest))) 0
      (start (record u { subprogram_stack_size = options.runtime.subprogram_stack_size })))

unfoldable pub unmarshal :
    List EbpfInst
    → ProgramInfo
    → EbpfPlatform
    → EbpfVerifierOptions
    → Unmarshaller
    → Unmarshaller × Outcome Program
unfolding validate unmarshal_valid
unmarshal insts info platform options u =
    unmarshal_valid insts info platform options (validate options.runtime) u
