-- ===== src/Cfg/Label/Offset.antt =====
-- src/cfg/label.rs: the two encodings of a jump's distance.
use prevail_rust.Base.Tests.{ℕ, ◌≡◌, ◌⊎◌, inl, inr, Bool-cases, refl, true, false, arith}
use prevail_rust.Base.Int.{ℤ, pos, ◌+ℤ◌, int_laws}
use prevail_rust.Ir.Isa.{bits, signed}
use prevail_rust.Ir.Isa.Pack.{IsI32}
use prevail_rust.Cfg.Label.{Label, distance, is16, label_to_offset16, label_to_offset32}

cast_16 : (z : ℤ) → is16 z ≡ true → signed 16 (bits 16 z) ≡ z
cast_16 z h = ground arith

cast_32 : (z : ℤ) → IsI32 z → signed 32 (bits 32 z) ≡ z
cast_32 z h = ground arith

-- If the distance from the slot after pc to a label is an i32, then the 16-bit and the 32-bit
-- offset add up to it, the 16-bit offset fits an i16, and the 32-bit offset is 0 unless the
-- distance does not fit an i16.
pub label_to_offset16-label_to_offset32 :
    (pc : ℕ) (label : Label)
    → IsI32 (distance pc label)
    → (label_to_offset16 pc label +ℤ label_to_offset32 pc label ≡ distance pc label)
      × (is16 (label_to_offset16 pc label) ≡ true)
      × ((label_to_offset32 pc label ≡ pos 0) ⊎ (is16 (distance pc label) ≡ false))
unfolding label_to_offset16 label_to_offset32
label_to_offset16-label_to_offset32 pc label h = elim (Bool-cases (is16 (distance pc label))) [
  | inl near ↦
      rw (near, cast_16 (distance pc label) near) (right_zero (distance pc label), near, inl refl)
  | inr far ↦
      rw (far, cast_32 (distance pc label) h) (left_zero (distance pc label), refl, inr refl)
]
  where
    right_zero : (z : ℤ) → z +ℤ pos 0 ≡ z
    right_zero z = omega int_laws

    left_zero : (z : ℤ) → pos 0 +ℤ z ≡ z
    left_zero z = omega int_laws
