-- ===== src/Ir/Config/Ranges.antt =====
-- src/spec/config.rs: the sizes that valid options give.
use native.Mathlib.Nat.{mul-le-mul}
use prevail_rust.Base.Tests.{ℕ, ◌^◌, ◌*◌, ◌≤◌, ◌≡◌, arith, none, some}
use prevail_rust.Base.Int.{ℤ, pos, negsuc, ◌≤ℤ◌, ◌*ℤ◌, ◌+ℤ◌, int_laws, eq_of_parts, *ℤ_parts}
use prevail_rust.Ir.Config.{EbpfRuntimeConfig, i32_checked, validate, total_stack_size, ptr_max}

pub record InRange (c : EbpfRuntimeConfig) : Type 0 where
  pub stack_low : pos 1 ≤ℤ c.subprogram_stack_size
  pub stack_high : c.subprogram_stack_size ≤ℤ pos (2 ^ 20)
  pub frames_low : pos 1 ≤ℤ c.max_call_stack_frames
  pub frames_high : c.max_call_stack_frames ≤ℤ pos 128
  pub packet_low : pos 1 ≤ℤ c.max_packet_size
  pub packet_high : c.max_packet_size ≤ℤ pos (2 ^ 30)

validate-InRange : (c : EbpfRuntimeConfig) → validate c ≡ none → InRange c
unfolding validate
validate-InRange c h = record {
  stack_low = ground arith;
  stack_high = ground arith;
  frames_low = ground arith;
  frames_high = ground arith;
  packet_low = ground arith;
  packet_high = ground arith;
}

pub InRange-validate : (c : EbpfRuntimeConfig) → InRange c → validate c ≡ none
unfolding validate
InRange-validate c r =
    ground
      (arith, r.stack_low, r.stack_high, r.frames_low, r.frames_high, r.packet_low, r.packet_high)

product_pos : (m n : ℕ) → pos m *ℤ pos n ≡ pos (m * n)
product_pos m n =
    eq_of_parts (pos m *ℤ pos n) (pos (m * n)) (omega (arith, *ℤ_parts (pos m) (pos n)))

product_in_range :
    (frames size : ℤ)
    → pos 1 ≤ℤ frames
    → frames ≤ℤ pos 128
    → pos 1 ≤ℤ size
    → size ≤ℤ pos (2 ^ 20)
    → (total : ℤ) × (i32_checked (frames *ℤ size) ≡ some total)
      × (size ≤ℤ total)
      × (total ≤ℤ pos (2 ^ 27))
product_in_range (pos m) (pos n) a b c d =
    let most : m * n ≤ 2 ^ 27 =
      mul-le-mul {n₁ = m} {m₁ = n} {n₂ = 128} {m₂ = 2 ^ 20} (omega arith) (omega arith) in
    let least : 1 * n ≤ m * n =
      mul-le-mul {n₁ = 1} {m₁ = n} {n₂ = m} {m₂ = n} (omega arith) (omega arith) in
    (pos (m * n), rw (product_pos m n) (ground arith), omega arith, omega arith)
product_in_range (pos m) (negsuc n) a b c d = absurd (omega arith)
product_in_range (negsuc m) size a b c d = absurd (omega arith)

-- With valid options, the size of the whole stack does not overflow, a frame fits in it, it is
-- at most 2^27, and a packet is at most one byte longer than the largest pointer.
pub total_stack_size-valid :
    (c : EbpfRuntimeConfig)
    → validate c ≡ none
    → (total : ℤ) × (total_stack_size c ≡ some total)
      × (c.subprogram_stack_size ≤ℤ total)
      × (total ≤ℤ pos (2 ^ 27))
      × (c.max_packet_size ≤ℤ ptr_max c +ℤ pos 1)
unfolding total_stack_size ptr_max
total_stack_size-valid c h =
    let r = validate-InRange c h in
    let (total, e, least, most) =
      product_in_range c.max_call_stack_frames c.subprogram_stack_size r.frames_low r.frames_high
        r.stack_low r.stack_high in
    (total, e, least, most, omega (int_laws, r.packet_low, r.packet_high))
