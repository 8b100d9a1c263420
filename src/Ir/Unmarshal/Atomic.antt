-- ===== src/Ir/Unmarshal/Atomic.antt =====
-- src/ir/unmarshal.rs: how `make_mem_op` reads the immediate of an atomic instruction.
use Prim.Native.Nat.{bit_and}
use prevail_rust.Base.Tests.{ℕ, ◌*◌, ◌/◌, ◌%◌, ◌≡◌, refl, arith}
use prevail_rust.Base.Bits.{bit_and-mask, bit_and_halves}
use prevail_rust.Base.Int.{ℤ, pos}
use prevail_rust.Ir.Isa.{bits}
use prevail_rust.Ir.Unmarshal.Mem.{get_atomic_op}

low_byte : (a : ℕ) → bit_and a 0xfe ≡ a / 2 % 128 * 2
low_byte a = omega (arith, bit_and_halves a 0xfe, bit_and-mask 7 (a / 2))

low_byte_mod : (a : ℕ) → bit_and (a % 256) 0xfe ≡ bit_and a 0xfe
low_byte_mod a = omega (arith, low_byte a, low_byte (a % 256))

low_bit_mod : (a : ℕ) → bit_and (a % 256) 1 ≡ bit_and a 1
low_bit_mod a = omega (arith, bit_and-mask 1 a, bit_and-mask 1 (a % 256))

bits_low : (n : ℕ) → bits 32 (pos (n % 256)) ≡ n % 256
bits_low n = omega arith

-- The atomic operation that an immediate denotes, or its rejection, is that of the immediate's
-- low byte alone.
pub get_atomic_op-low_byte : (imm : ℤ) → get_atomic_op imm ≡ get_atomic_op (pos (bits 32 imm % 256))
unfolding get_atomic_op
get_atomic_op-low_byte imm =
    rw (bits_low (bits 32 imm), low_byte_mod (bits 32 imm), low_bit_mod (bits 32 imm)) refl
