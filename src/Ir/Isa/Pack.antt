-- ===== src/Ir/Isa/Pack.antt =====
-- src/spec/vm_isa.rs: what the packed fields of an instruction, and the two halves of a wide
-- immediate, are read back as.
use Prim.Native.Nat.{bit_and, bit_or}
use prevail_rust.Base.Tests.{ℕ, ◌+◌, ◌-◌, ◌*◌, ◌/◌, ◌%◌, ◌^◌, ◌<◌, ◌≡◌, ◌∙◌, ap, arith}
use prevail_rust.Base.Bits.{bit_and-mask, bit_and_halves, bit_or-low, bit_or-high}
use prevail_rust.Base.Int.{ℤ, pos, negsuc, ◌≤ℤ◌}
use prevail_rust.Ir.Isa.{
  EbpfInst, high_nibble, inst_new, inst_dst, inst_src, set_src, set_dst, merge, split, bits, signed,
}

pack : (a c : ℕ) → bit_or (bit_and a 0x0f) (high_nibble c) ≡ a % 16 + c % 16 * 16
pack a c = rw (bit_and-mask 4 a, shifted) (bit_or-low 4 (a % 16) (c % 16) (omega arith))
  where
    shifted : high_nibble c ≡ c % 16 * 2 ^ 4
    shifted = omega (arith, bit_and-mask 4 c)

high_mask : (n : ℕ) → bit_and n 0xf0 ≡ n / 16 % 16 * 2 ^ 4
high_mask n = omega (
  arith,
  bit_and_halves n 0xf0,
  bit_and_halves (n / 2) 0x78,
  bit_and_halves (n / 2 / 2) 0x3c,
  bit_and_halves (n / 2 / 2 / 2) 0x1e,
  bit_and-mask 4 (n / 2 / 2 / 2 / 2),
)

repack : (a c : ℕ) → bit_or (bit_and a 0xf0) (bit_and c 0x0f) ≡ a / 16 % 16 * 16 + c % 16
repack a c = rw (high_mask a, bit_and-mask 4 c) (bit_or-high 4 (c % 16) (a / 16 % 16) (omega arith))

nibble : (n : ℕ) → bit_and n 0x0f ≡ n % 16
nibble n = bit_and-mask 4 n

-- The register fields of a new instruction are the low four bits of the registers that it is
-- made of.
pub inst_new-fields :
    (opcode d s : ℕ) (offset imm : ℤ)
    → (inst_dst (inst_new opcode d s offset imm) ≡ d % 16)
      × (inst_src (inst_new opcode d s offset imm) ≡ s % 16)
unfolding inst_new inst_dst inst_src
inst_new-fields opcode d s offset imm =
    let p = pack d s in
    (
      rw p (omega (arith, nibble (d % 16 + s % 16 * 16))),
      rw p (omega (arith, nibble ((d % 16 + s % 16 * 16) / 2 ^ 4))),
    )

-- Setting either register field stores the low four bits of the given number in it and leaves
-- the other register field as it was.
pub set_src-set_dst-fields :
    (n : ℕ) (inst : EbpfInst)
    → ((inst_src (set_src n inst) ≡ n % 16) × (inst_dst (set_src n inst) ≡ inst_dst inst))
      × ((inst_dst (set_dst n inst) ≡ n % 16) × (inst_src (set_dst n inst) ≡ inst_src inst))
unfolding set_src set_dst inst_dst inst_src
set_src-set_dst-fields n inst =
    let a : ℕ = inst.dst_src in
    let p = pack a n in
    let q = repack a n in
    (
      (
        rw p (omega (arith, nibble ((a % 16 + n % 16 * 16) / 2 ^ 4))),
        rw p (omega (arith, nibble (a % 16 + n % 16 * 16), nibble a)),
      ),
      (
        rw q (omega (arith, nibble (a / 16 % 16 * 16 + n % 16))),
        rw q (omega (arith, nibble ((a / 16 % 16 * 16 + n % 16) / 2 ^ 4), nibble (a / 2 ^ 4))),
      ),
    )

abbrev pub IsI32 : ℤ → Type 0
IsI32 z = (negsuc (2 ^ 31 - 1) ≤ℤ z) × (z ≤ℤ pos (2 ^ 31 - 1))

merge-eq-sum : (low next : ℤ) → IsI32 next → merge low next ≡ bits 32 next * 2 ^ 32 + bits 32 low
unfolding merge
merge-eq-sum low next h = rw high (bit_or-high 32 (bits 32 low) (bits 32 next) (bits_bound low))
  where
    high : bits 64 next * 2 ^ 32 % 2 ^ 64 ≡ bits 32 next * 2 ^ 32
    high = ground arith

    bits_bound : (z : ℤ) → bits 32 z < 2 ^ 32
    bits_bound z = ground arith

signed-bits : (z : ℤ) → IsI32 z → signed 32 (bits 32 z) ≡ z
signed-bits z h = ground arith

bits-signed : (n : ℕ) → n < 2 ^ 32 → bits 32 (signed 32 n) ≡ n
bits-signed n h = ground arith

-- For a 64-bit value and two i32 halves: merging the halves of the value gives the value, the
-- halves of the value are i32s, and splitting the merge of the two halves gives those two.
pub split-merge :
    (v : ℕ) (low next : ℤ)
    → v < 2 ^ 64
    → IsI32 low
    → IsI32 next
    → (merge (split v).lo (split v).hi ≡ v)
      × (IsI32 (split v).lo × IsI32 (split v).hi)
      × ((split (merge low next)).lo ≡ low)
      × ((split (merge low next)).hi ≡ next)
unfolding split
split-merge v low next bound l n =
    let low_half = v % 2 ^ 32 in
    let high_half = v / 2 ^ 32 % 2 ^ 32 in
    let lo_ok = signed-IsI32 low_half (omega arith) in
    let hi_ok = signed-IsI32 high_half (omega arith) in
    (
      omega (
        arith,
        merge-eq-sum (signed 32 low_half) (signed 32 high_half) hi_ok,
        bits-signed low_half (omega arith),
        bits-signed high_half (omega arith),
      ),
      (lo_ok, hi_ok),
      ap (signed 32) low_back ∙ signed-bits low l,
      ap (signed 32) high_back ∙ signed-bits next n,
    )
  where
    signed-IsI32 : (k : ℕ) → k < 2 ^ 32 → IsI32 (signed 32 k)
    signed-IsI32 k h = ground arith

    bits_bound : (z : ℤ) → bits 32 z < 2 ^ 32
    bits_bound z = ground arith

    low_back : merge low next % 2 ^ 32 ≡ bits 32 low
    low_back = omega (arith, merge-eq-sum low next n, bits_bound low)

    high_back : merge low next / 2 ^ 32 % 2 ^ 32 ≡ bits 32 next
    high_back = omega (arith, merge-eq-sum low next n, bits_bound low, bits_bound next)
