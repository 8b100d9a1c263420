-- ===== src/Ir/Unmarshal/Program/Total.antt =====
-- src/ir/unmarshal.rs: the loop over the slots ends without a panic, and its program lists slots in
-- their order, with jumps that stay in the program.
use prevail_rust.Base.Tests.{
  ℕ, zero, suc, ◌+◌, ◌%◌, ◌^◌, ◌≤◌, ◌<◌, ◌≡◌, inl, inr, refl, ap, arith, Option, none, some, true,
  List, [], ◌∷◌, ◌++◌, if◌then◌else◌, Option-cases, ltb,
}
use prevail_rust.Base.Lists.{length, get_elem?, get_elem?-lt, get_elem?-none}
use prevail_rust.Base.Int.{ℤ, pos}
use prevail_rust.Cfg.Label.{Label}
use prevail_rust.Cfg.Label
use prevail_rust.Ir.Isa.{EbpfInst, class_from_opcode, signed}
use prevail_rust.Ir.Config.{ProgramInfo, BtfLineInfo, EbpfVerifierOptions, validate}
use prevail_rust.Ir.CallProto.Prototype.{EbpfPlatform, HelperPrototype}
use prevail_rust.Ir.Syntax.{Instruction}
use prevail_rust.Ir.Unmarshal.{Outcome, Unmarshaller, ok, err, panic}
use prevail_rust.Ir.Unmarshal.Jumps.Targets.{FitsSlot}
use prevail_rust.Ir.Unmarshal.Merge.{Round}
use prevail_rust.Ir.Unmarshal.Program.{
  Loop, Program, exits_after, advance, decode_class, after_round, run, start, finish,
  unmarshal_valid, unmarshal,
}
use prevail_rust.Ir.Unmarshal.Program.Decoded.{TargetsInside, RoundDecoded, class-RoundDecoded}

-- The entries are labelled by ascending slots, at most one of them left out between two entries,
-- before the first and after the last.
abbrev pub Lists : ℕ → ℕ → ℕ → Program → Type 0
Lists count lo hi [] = (lo ≤ hi) × (hi ≤ suc lo)
Lists count lo hi ((l, i, line) ∷ rest) =
    (slot : ℕ) × (lo ≤ slot)
    × (slot ≤ suc lo)
    × (slot < count)
    × (l ≡ Label.new (pos slot))
    × TargetsInside count i
    × Lists count (suc slot) hi rest

Lists-cut :
    (count lo hi : ℕ) (p : Program)
    → lo ≤ count
    → count ≤ hi
    → Lists count lo hi p
    → Lists count lo count p
Lists-cut count lo hi [] below past l = (below, omega arith)
Lists-cut count lo hi (e ∷ rest) below past (slot, low, near, valid, is, inside, more) =
    (slot, low, near, valid, is, inside, Lists-cut count (suc slot) hi rest valid past more)

Lists-append :
    (count lo pc hi : ℕ) (p : Program) (l : Label) (i : Instruction) (line : Option BtfLineInfo)
    → pc < hi
    → hi ≤ suc (suc pc)
    → pc < count
    → l ≡ Label.new (pos pc)
    → TargetsInside count i
    → Lists count lo pc p
    → Lists count lo hi (p ++ ((l, i, line) ∷ []))
Lists-append count lo pc hi [] l i line k top v e inside (low, near) =
    (pc, low, near, v, e, inside, (k, top))
Lists-append count lo pc hi (x ∷ rest) l i line k top v e inside
      (slot, low, near, valid, is, t, more) =
    (
      slot,
      low,
      near,
      valid,
      is,
      t,
      Lists-append count (suc slot) pc hi rest l i line k top v e inside more,
    )

-- What the loop has made when it ends.
abbrev Ran : ℕ → Outcome Loop → Type 0
Ran count (ok loop) = Lists count 0 count loop.prog
Ran count (err e) = Unit
Ran count panic = ⊥

cut_label : (pc : ℕ) → pc < 2 ^ 31 → signed 32 (pc % 2 ^ 32) ≡ pos pc
cut_label pc h = ground arith

-- A program is returned for valid options and some slots only, and lists those.
abbrev pub Listed : List EbpfInst → EbpfVerifierOptions → Outcome Program → Type 0
Listed insts options (ok prog) =
    (validate options.runtime ≡ none)
    × (0 < length insts)
    × Lists (length insts) 0 (length insts) prog
Listed insts options (err e) = Unit
Listed insts options panic = ⊥

module _ (insts : List EbpfInst) (info : ProgramInfo) (platform : EbpfPlatform)
    (options : EbpfVerifierOptions) where
  abbrev Rounds : Type 0
  Rounds = ℕ → Loop → Unmarshaller × Outcome Loop

  -- A round adds its slot to the list and goes forward.
  advance-Ran :
      (rounds : Rounds) (pc : ℕ) (loop : Loop) (step : Unmarshaller × Outcome Round)
      → pc < length insts
      → length insts < 2 ^ 31
      → loop.exit_count ≤ pc
      → Lists (length insts) 0 pc loop.prog
      → RoundDecoded (length insts) step.1
      → ((next : ℕ) (l : Loop)
          → pc < next
          → l.exit_count ≤ next
          → Lists (length insts) 0 next l.prog
          → Ran (length insts) (rounds next l).1)
      → Ran (length insts) (after_round insts info platform options rounds pc loop step).1
  advance-Ran rounds pc loop (u, ok r) h small few l d more =
      let label = ap (λ (z : ℤ). Label.new z) (cut_label pc (omega arith)) in
      let next = if r.skip_instruction then suc (suc pc) else suc pc in
      let fits : ltb (exits_after insts info platform options r loop) (2 ^ 31) ≡ true =
        ground arith in
      rw fits (
        more next (advance insts info platform options pc u r loop).1 (ground arith) (ground arith)
          (Lists-append (length insts) 0 pc next loop.prog _ r.new_ins _ (ground arith)
            (ground arith) h label d l))
  advance-Ran rounds pc loop (u, err e) h small few l d more = tt
  advance-Ran rounds pc loop (u, panic) h small few l d more = d

  finish-Listed :
      (r : Unmarshaller × Outcome Loop)
      → 0 < length insts
      → validate options.runtime ≡ none
      → Ran (length insts) r.1
      → Listed insts options (finish r).1
  finish-Listed (u, ok loop) some_slot valid ran = (valid, some_slot, ran)
  finish-Listed (u, err e) some_slot valid ran = tt
  finish-Listed (u, panic) some_slot valid ran = ran

  module _ (small : length insts < 2 ^ 31)
      (fits : (k : ℕ) (i : EbpfInst) → get_elem? insts k ≡ some i → FitsSlot i)
      (prototypes : (n : ℤ)
        → platform.is_helper_usable n ≡ true
        → (p : HelperPrototype) × (platform.try_get_helper_prototype n ≡ some p)) where
    run-Ran :
        (fuel pc : ℕ) (loop : Loop)
        → 0 < fuel
        → length insts < fuel + pc
        → loop.exit_count ≤ pc
        → Lists (length insts) 0 pc loop.prog
        → Ran (length insts) (run insts info platform options fuel pc loop).1
    unfolding run
    run-Ran zero pc loop more h few l = omega arith
    run-Ran (suc fuel) pc loop more h few l = elim (Option-cases (get_elem? insts pc)) [
      | inl past ↦
          rw past
            (Lists-cut (length insts) 0 pc loop.prog (omega arith) (get_elem?-none insts pc past) l)
      | inr (inst, found) ↦
          let inside = get_elem?-lt insts pc found in
          rw found (
            advance-Ran (λ next l. run insts info platform options fuel next l) pc loop
              (decode_class insts info platform options pc inst loop.unmarshaller
                (class_from_opcode inst.opcode))
              inside small few l
              (class-RoundDecoded insts info platform options (omega arith) prototypes pc inst
                loop.unmarshaller (class_from_opcode inst.opcode) inside (fits pc inst found) refl)
              (λ next l forward few' listed.
                run-Ran fuel next l (omega arith) (omega arith) few' listed))
    ]

abbrev pub HasPrototypes : EbpfPlatform → Type 0
HasPrototypes platform =
    (n : ℤ)
    → platform.is_helper_usable n ≡ true
    → (p : HelperPrototype) × (platform.try_get_helper_prototype n ≡ some p)

abbrev pub AllFitSlot : List EbpfInst → Type 0
AllFitSlot insts = (k : ℕ) (i : EbpfInst) → get_elem? insts k ≡ some i → FitsSlot i

valid-Listed :
    (insts : List EbpfInst) (info : ProgramInfo) (platform : EbpfPlatform)
    (options : EbpfVerifierOptions) (u : Unmarshaller)
    → length insts < 2 ^ 31
    → AllFitSlot insts
    → HasPrototypes platform
    → validate options.runtime ≡ none
    → Listed insts options (unmarshal_valid insts info platform options none u).1
unfolding unmarshal_valid
valid-Listed [] info platform options u small fits prototypes valid = tt
valid-Listed (first ∷ rest) info platform options u small fits prototypes valid =
    let insts = first ∷ rest in
    let loop = start (record u { subprogram_stack_size = options.runtime.subprogram_stack_size }) in
    finish-Listed insts info platform options
      (run insts info platform options (suc (length insts)) 0 loop) (omega arith) valid
      (run-Ran insts info platform options small fits prototypes (suc (length insts)) 0 loop
        (omega arith) (omega arith) (omega arith) (omega arith, omega arith))

-- For fewer than 2^31 slots, in which every offset is an i16 and every immediate an i32, and a
-- platform with a prototype for every helper that it calls usable, unmarshal ends without a
-- panic. If it returns a program, then the options are valid and there is a slot, and the
-- entries of the program are labelled by slots in ascending order, of which no two in a row are
-- left out. The jumps and local calls of the program lead to slots.
pub unmarshal-Listed :
    (insts : List EbpfInst) (info : ProgramInfo) (platform : EbpfPlatform)
    (options : EbpfVerifierOptions) (u : Unmarshaller)
    → length insts < 2 ^ 31
    → AllFitSlot insts
    → HasPrototypes platform
    → Listed insts options (unmarshal insts info platform options u).1
unfolding unmarshal unmarshal_valid
unmarshal-Listed insts info platform options u small fits prototypes =
    elim (Option-cases (validate options.runtime)) [
      | inl valid ↦
          rw valid (valid-Listed insts info platform options u small fits prototypes valid)
      | inr (e, invalid) ↦ rw invalid tt
    ]
