-- ===== src/Ir/Unmarshal/Wide.antt =====
-- src/ir/unmarshal.rs: what `make_lddw` makes of a wide load.
use prevail_rust.Base.Tests.{
  ℕ, ◌-◌, ◌%◌, ◌≤◌, ◌<◌, ◌≡◌, ◌≢◌, ◌∙◌, refl, some, suc, true, false, List, ◌==◌, leb, ltb,
  leb-false→lt, Bool-cases, inl, inr, arith,
}
use prevail_rust.Base.Lists.{length, get_elem?, get_elem?-lt, get_elem?-some}
use prevail_rust.Base.Int.{ℤ, pos}
use prevail_rust.Ir.Isa.{EbpfInst, inst_new, inst_dst, inst_src, merge}
use prevail_rust.Ir.Isa.Pack.{inst_new-fields}
use prevail_rust.Ir.Syntax.{BinOp, Value, Instruction}
use prevail_rust.Ir.Unmarshal.{ok, panic}
use prevail_rust.Ir.Unmarshal.Lddw.{make_lddw, with_next, by_mode}

-- The two slots of a wide load of a constant.
abbrev pub first_slot : ℕ → ℤ → EbpfInst
first_slot d imm = inst_new 0x18 d 0 (pos 0) imm

abbrev pub second_slot : ℤ → EbpfInst
second_slot next_imm = inst_new 0 0 0 (pos 0) next_imm

by_mode-merge :
    (pc d : ℕ) (inst next : EbpfInst) (next_imm : ℤ)
    → inst_dst inst ≡ d
    → by_mode pc inst next_imm next 0
      ≡ ok (
          Instruction.bin (record {
            op = BinOp.mov;
            dst = d;
            v = Value.imm (merge inst.imm next_imm);
            is64 = true;
            lddw = true;
          }))
by_mode-merge pc d inst next next_imm h = rw h refl

with_next-merge :
    (pc d : ℕ) (imm next_imm : ℤ)
    → d ≤ 10
    → with_next pc (first_slot d imm) next_imm (some (second_slot next_imm))
      ≡ ok (
          Instruction.bin (record {
            op = BinOp.mov;
            dst = d;
            v = Value.imm (merge imm next_imm);
            is64 = true;
            lddw = true;
          }))
unfolding inst_new inst_dst inst_src
with_next-merge pc d imm next_imm h =
    let (hd, hs) = inst_new-fields 0x18 d 0 (pos 0) imm in
    let same = hd ∙ small d (omega arith) in
    rw (hs, low (inst_dst (first_slot d imm)) (omega (arith, same)))
      (by_mode-merge pc d (first_slot d imm) (second_slot next_imm) next_imm same)
  where
    small : (n : ℕ) → n < 16 → n % 16 ≡ n
    small n k = omega arith

    low : (n : ℕ) → n ≤ 10 → ltb 10 n ≡ false
    low n k = ground arith

-- A wide load of a constant with a target up to r10, r10 included, and with its second slot next
-- in the program, is decoded as the 64-bit move of the merged constant into that register.
pub make_lddw-merge :
    (pc d : ℕ) (imm next_imm : ℤ) (insts : List EbpfInst)
    → d ≤ 10
    → get_elem? insts (suc pc) ≡ some (second_slot next_imm)
    → make_lddw pc (first_slot d imm) next_imm insts
      ≡ ok (
          Instruction.bin (record {
            op = BinOp.mov;
            dst = d;
            v = Value.imm (merge imm next_imm);
            is64 = true;
            lddw = true;
          }))
unfolding make_lddw
make_lddw-merge pc d imm next_imm insts h found =
    rw (nonempty, inside, found) (with_next-merge pc d imm next_imm h)
  where
    nonempty : (length insts == 0) ≡ false
    nonempty = ground (arith, get_elem?-lt insts (suc pc) found)

    inside : leb (length insts - 1) pc ≡ false
    inside = ground (arith, get_elem?-lt insts (suc pc) found)

by_mode-IsTotal :
    (pc : ℕ) (inst next : EbpfInst) (next_imm : ℤ) (mode : ℕ)
    → by_mode pc inst next_imm next mode ≢ panic
by_mode-IsTotal pc inst next next_imm mode = ground arith

with_next-IsTotal :
    (pc : ℕ) (inst next : EbpfInst) (next_imm : ℤ) → with_next pc inst next_imm (some next) ≢ panic
with_next-IsTotal pc inst next next_imm =
    ground (arith, by_mode-IsTotal pc inst next next_imm (inst_src inst))

-- Decoding a wide load in a program that is not empty never panics, whatever the slots hold.
pub make_lddw-IsTotal :
    (pc : ℕ) (inst : EbpfInst) (next_imm : ℤ) (insts : List EbpfInst)
    → 0 < length insts
    → make_lddw pc inst next_imm insts ≢ panic
unfolding make_lddw
make_lddw-IsTotal pc inst next_imm insts nonempty = elim (Bool-cases (leb (length insts - 1) pc)) [
  | inl outside ↦ rw outside (ground arith)
  | inr inside ↦
      let (next, found) =
        get_elem?-some insts (suc pc) (omega (arith, leb-false→lt (length insts - 1) pc inside)) in
      rw (found, inside) (ground (arith, with_next-IsTotal pc inst next next_imm))
]
