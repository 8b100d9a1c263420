-- ===== src/Ir/Unmarshal/Safe.antt =====
-- src/ir/unmarshal.rs: what a decoded instruction can do, and when decoding panics.
use Prim.Native.Nat.{bit_and}
use prevail_rust.Base.Tests.{
  switch, [], ◌∷◌, ℕ, zero, suc, ◌*◌, ◌/◌, ◌%◌, ◌≤◌, ◌<◌, ◌≡◌, ◌≢◌, refl, Option, none, some, Bool,
  true, false, ◌||◌, arith, inl, inr, ◌==◌, if◌then◌else◌, or-false, ltb-false→le, ltb,
}
use prevail_rust.Base.Bits.{bit_and-mask, bit_and_halves}
use prevail_rust.Ir.Isa.{
  EbpfInst, AluOp, AccessSize, access_size_from_opcode, access_size_of_bits, inst_dst, inst_src,
  inst_mode_mask, alu_op_from_opcode,
}
use prevail_rust.Ir.Syntax.{BinOp, Instruction, Value, AtomicOp}
use prevail_rust.Ir.Unmarshal.{
  Outcome, Message, UnmarshalError, invalid, Unmarshaller, get_mem_is_load, ok, err, panic,
}
use prevail_rust.Ir.Unmarshal.Alu.{
  Operation, make_alu_op, get_alu_op, get_op, get_operand, finish_bin, finish_alu, note_arsh,
}
use prevail_rust.Ir.Unmarshal.Mem.{
  make_mem_op, get_atomic_op, make_load_store, make_mem, make_memsx, make_abs, make_ind,
  make_atomic, finish_atomic, make_mode,
}

-- An accepted load or arithmetic operation has its target below r10, it is no jump, and nothing
-- panicked.
abbrev pub TargetBelow : Value → Type 0
TargetBelow (Value.reg r) = r < 10
TargetBelow (Value.imm n) = ⊥

abbrev pub KeepsR10 : Instruction → Type 0
KeepsR10 (Instruction.bin b) = b.dst < 10
KeepsR10 (Instruction.un o) = o.dst < 10
KeepsR10 (Instruction.mem m) = m.is_load ≡ true → TargetBelow m.value
KeepsR10 (Instruction.jmp j) = ⊥
KeepsR10 (Instruction.call_local l prefix) = ⊥
KeepsR10 _ = Unit

abbrev pub IsSafe : Outcome Instruction → Type 0
IsSafe (ok i) = KeepsR10 i
IsSafe (err e) = Unit
IsSafe panic = ⊥

size_bits : (n : ℕ) → bit_and n 0x18 ≡ n / 8 % 4 * 8
size_bits n = omega (
  arith,
  bit_and_halves n 0x18,
  bit_and_halves (n / 2) 0x0c,
  bit_and_halves (n / 2 / 2) 0x06,
  bit_and-mask 2 (n / 2 / 2 / 2),
)

has_size : (n : ℕ) → (w : AccessSize) × (access_size_from_opcode n ≡ some w)
unfolding access_size_from_opcode
has_size n = rw (size_bits n) (of_digit (n / 8 % 4) (omega arith))
  where
    of_digit : (k : ℕ) → k < 4 → (w : AccessSize) × (access_size_of_bits (k * 8) ≡ some w)
    of_digit zero h = (AccessSize.word, refl)
    of_digit (suc zero) h = (AccessSize.half, refl)
    of_digit (suc (suc zero)) h = (AccessSize.byte, refl)
    of_digit (suc (suc (suc zero))) h = (AccessSize.dword, refl)
    of_digit (suc (suc (suc (suc k)))) h = absurd (omega arith)

is_memory : (n : ℕ) → bit_and n 7 < 4 → (b : Bool) × (get_mem_is_load n ≡ some b)
unfolding get_mem_is_load
is_memory n h = of_class (bit_and n 7) h
  where
    of_class :
        (k : ℕ)
        → k < 4
        → (b : Bool) × (switch k ((0, true) ∷ (1, true) ∷ (2, false) ∷ (3, false) ∷ []) ≡ some b)
    of_class zero h = (true, refl)
    of_class (suc zero) h = (true, refl)
    of_class (suc (suc zero)) h = (false, refl)
    of_class (suc (suc (suc zero))) h = (false, refl)
    of_class (suc (suc (suc (suc k)))) h = absurd (omega arith)

load_store-IsSafe :
    (pc : ℕ) (inst : EbpfInst) (width : AccessSize) (is_load : Bool)
    → inst_dst inst ≤ 10
    → IsSafe (make_load_store pc inst width (some is_load))
load_store-IsSafe pc inst width true h = ground arith
load_store-IsSafe pc inst width false h = ground arith

mem-IsSafe :
    (pc : ℕ) (inst : EbpfInst) (width : AccessSize)
    → bit_and inst.opcode 7 < 4
    → inst_dst inst ≤ 10
    → IsSafe (make_mem pc inst width)
mem-IsSafe pc inst width class h =
    let (b, found) = is_memory inst.opcode class in
    rw found (ground (arith, load_store-IsSafe pc inst width b h))

memsx-IsSafe :
    (pc : ℕ) (inst : EbpfInst) (width : AccessSize) (u : Unmarshaller)
    → inst_dst inst ≤ 10
    → IsSafe (make_memsx pc inst width u).1
memsx-IsSafe pc inst width u h = ground arith

packet-IsSafe :
    (pc : ℕ) (inst : EbpfInst) (width : AccessSize)
    → IsSafe (make_abs pc inst width) × IsSafe (make_ind pc inst width)
packet-IsSafe pc inst width = (ground arith, ground arith)

finish_atomic-IsSafe :
    (pc : ℕ) (inst : EbpfInst) (width : AccessSize) (op : Option AtomicOp)
    → IsSafe (finish_atomic pc inst width op)
finish_atomic-IsSafe pc inst width none = tt
finish_atomic-IsSafe pc inst width (some op) = tt

atomic-IsSafe : (pc : ℕ) (inst : EbpfInst) (width : AccessSize) → IsSafe (make_atomic pc inst width)
atomic-IsSafe pc inst width =
    ground (arith, finish_atomic-IsSafe pc inst width (get_atomic_op inst.imm))

mode-IsSafe :
    (pc : ℕ) (inst : EbpfInst) (width : AccessSize) (u : Unmarshaller) (mode : ℕ)
    → bit_and inst.opcode 7 < 4
    → inst_dst inst ≤ 10
    → IsSafe (make_mode pc inst width u mode).1
mode-IsSafe pc inst width u mode class h = split mode
  where
    split : (mode : ℕ) → IsSafe (make_mode pc inst width u mode).1
    split mode = ground (
      arith,
      packet-IsSafe pc inst width,
      mem-IsSafe pc inst width class h,
      memsx-IsSafe pc inst width u h,
      atomic-IsSafe pc inst width,
    )

-- What follows a guard is safe when it is under the guard's failure.
guarded-IsSafe :
    (guard : Bool) (u : Unmarshaller) (e : UnmarshalError)
    (rest : Unmarshaller × Outcome Instruction)
    → (guard ≡ false → IsSafe rest.1)
    → IsSafe (if guard then (u, err e) else rest).1
guarded-IsSafe true u e rest f = tt
guarded-IsSafe false u e rest f = f refl

below_r10 : (a b : ℕ) → (ltb 10 a || ltb 10 b) ≡ false → a ≤ 10
below_r10 a b h = ltb-false→le 10 a (or-false (ltb 10 a) (ltb 10 b) h).0

-- A slot whose class bits are those of a load or a store is decoded without a panic: the outcome
-- is an error or an instruction, and if that is a load of a memory operand then its target
-- register is below r10.
pub make_mem_op-IsSafe :
    (pc : ℕ) (inst : EbpfInst) (u : Unmarshaller)
    → bit_and inst.opcode 0x07 < 4
    → IsSafe (make_mem_op pc inst u).1
unfolding make_mem_op
make_mem_op-IsSafe pc inst u class =
    let (width, found) = has_size inst.opcode in
    rw found (
      guarded-IsSafe (ltb 10 (inst_dst inst) || ltb 10 (inst_src inst)) u
        (UnmarshalError.invalid_instruction pc Message.bad_register)
        (make_mode pc inst width u (bit_and inst.opcode inst_mode_mask))
        (λ low.
          mode-IsSafe pc inst width u (bit_and inst.opcode inst_mode_mask) class
            (below_r10 (inst_dst inst) (inst_src inst) low)))

get_op-IsTotal : (pc : ℕ) (inst : EbpfInst) (op : Option AluOp) → get_op pc inst op ≢ panic
get_op-IsTotal pc inst none = ground arith
get_op-IsTotal pc inst (some AluOp.add) = ground arith
get_op-IsTotal pc inst (some AluOp.sub) = ground arith
get_op-IsTotal pc inst (some AluOp.mul) = ground arith
get_op-IsTotal pc inst (some AluOp.div) = ground arith
get_op-IsTotal pc inst (some AluOp.or) = ground arith
get_op-IsTotal pc inst (some AluOp.and) = ground arith
get_op-IsTotal pc inst (some AluOp.lsh) = ground arith
get_op-IsTotal pc inst (some AluOp.rsh) = ground arith
get_op-IsTotal pc inst (some AluOp.neg) = ground arith
get_op-IsTotal pc inst (some AluOp.mod_) = ground arith
get_op-IsTotal pc inst (some AluOp.xor) = ground arith
get_op-IsTotal pc inst (some AluOp.mov) = ground arith
get_op-IsTotal pc inst (some AluOp.arsh) = ground arith
get_op-IsTotal pc inst (some AluOp.end) = ground arith

get_operand-IsTotal : (pc : ℕ) (inst : EbpfInst) → get_operand pc inst ≢ panic
get_operand-IsTotal pc inst = ground arith

finish_bin-IsSafe :
    (allow : Bool) (inst : EbpfInst) (op : BinOp) (is64 : Bool) (u : Unmarshaller)
    (v : Outcome Value)
    → v ≢ panic
    → inst_dst inst < 10
    → IsSafe (finish_bin allow inst op is64 u v).1
finish_bin-IsSafe allow inst op is64 u (ok v) h k = k
finish_bin-IsSafe allow inst op is64 u (err e) h k = tt
finish_bin-IsSafe allow inst op is64 u panic h k = h refl

finish_alu-IsSafe :
    (allow : Bool) (pc : ℕ) (inst : EbpfInst) (is64 : Bool) (u : Unmarshaller)
    (o : Outcome Operation)
    → o ≢ panic
    → inst_dst inst < 10
    → IsSafe (finish_alu allow pc inst is64 (u, o)).1
finish_alu-IsSafe allow pc inst is64 u (ok (inr op)) h k = k
finish_alu-IsSafe allow pc inst is64 u (ok (inl op)) h k =
    finish_bin-IsSafe allow inst op is64 u (get_operand pc inst) (get_operand-IsTotal pc inst) k
finish_alu-IsSafe allow pc inst is64 u (err e) h k = tt
finish_alu-IsSafe allow pc inst is64 u panic h k = h refl

-- Decoding an arithmetic slot never panics, whatever the slot holds, and an operation that it
-- accepts has its target below r10.
pub make_alu_op-IsSafe :
    (allow : Bool) (pc : ℕ) (inst : EbpfInst) (u : Unmarshaller)
    → IsSafe (make_alu_op allow pc inst u).1
unfolding make_alu_op get_alu_op
make_alu_op-IsSafe allow pc inst u =
    let d = inst_dst inst in
    let result = get_op pc inst (alu_op_from_opcode inst.opcode) in
    let is64 = bit_and inst.opcode 0x07 == 0x07 in
    let final = finish_alu allow pc inst is64 (note_arsh inst result u, result) in
    guarded-IsSafe (d == 10) u (UnmarshalError.invalid_instruction pc Message.invalid_target_r10)
      (if ltb 10 d || ltb 10 (inst_src inst) then (u, invalid pc Message.bad_register) else final)
      (λ other.
        guarded-IsSafe (ltb 10 d || ltb 10 (inst_src inst)) u
          (UnmarshalError.invalid_instruction pc Message.bad_register) final
          (λ low.
            finish_alu-IsSafe allow pc inst is64 (note_arsh inst result u) result
              (get_op-IsTotal pc inst (alu_op_from_opcode inst.opcode))
              (below d other (below_r10 d (inst_src inst) low))))
  where
    below : (d : ℕ) → (d == 10) ≡ false → d ≤ 10 → d < 10
    below d h k = ground arith
