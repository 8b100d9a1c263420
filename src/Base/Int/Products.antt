-- ===== src/Base/Int/Products.antt =====
-- Products of integers: a product is determined by the differences of the parts of its factors.
use prevail_rust.Base.Tests.{ℕ, ◌*◌, ◌≡◌, ap, arith}
use prevail_rust.Base.Int.{
  ℤ, pos, negsuc, pos_part, neg_part, ◌+ℤ◌, ◌-ℤ◌, ◌*ℤ◌, neg_ℤ, +ℤ_parts, -ℤ_parts, *ℤ_parts,
  neg_ℤ_parts, eq_of_parts,
}

-- An equation of parts, times a number.
times : {a b : ℕ} (p : ℕ) → a ≡ b → a * p ≡ b * p
times p e = ap (λ t. t * p) e

pub +ℤ-*ℤ : (a b s : ℤ) → (a +ℤ b) *ℤ s ≡ (a *ℤ s) +ℤ (b *ℤ s)
+ℤ-*ℤ a b s = eq_of_parts ((a +ℤ b) *ℤ s) ((a *ℤ s) +ℤ (b *ℤ s)) (
    omega (
      arith,
      times (pos_part s) (+ℤ_parts a b),
      times (neg_part s) (+ℤ_parts a b),
      *ℤ_parts (a +ℤ b) s,
      *ℤ_parts a s,
      *ℤ_parts b s,
      +ℤ_parts (a *ℤ s) (b *ℤ s),
    ))

pub -ℤ-*ℤ : (a b s : ℤ) → (a -ℤ b) *ℤ s ≡ (a *ℤ s) -ℤ (b *ℤ s)
-ℤ-*ℤ a b s = eq_of_parts ((a -ℤ b) *ℤ s) ((a *ℤ s) -ℤ (b *ℤ s)) (
    omega (
      arith,
      times (pos_part s) (-ℤ_parts a b),
      times (neg_part s) (-ℤ_parts a b),
      *ℤ_parts (a -ℤ b) s,
      *ℤ_parts a s,
      *ℤ_parts b s,
      -ℤ_parts (a *ℤ s) (b *ℤ s),
    ))

-- The second factor may be scaled before or after.
pub *ℤ_right_comm : (c k s : ℤ) → (c *ℤ k) *ℤ s ≡ (c *ℤ s) *ℤ k
*ℤ_right_comm c k s = eq_of_parts ((c *ℤ k) *ℤ s) ((c *ℤ s) *ℤ k) (
    omega (
      arith,
      times (pos_part s) (*ℤ_parts c k),
      times (neg_part s) (*ℤ_parts c k),
      times (pos_part k) (*ℤ_parts c s),
      times (neg_part k) (*ℤ_parts c s),
      *ℤ_parts (c *ℤ k) s,
      *ℤ_parts (c *ℤ s) k,
    ))

pub *ℤ_minus_one : (a : ℤ) → a *ℤ negsuc 0 ≡ neg_ℤ a
*ℤ_minus_one a =
    eq_of_parts (a *ℤ negsuc 0) (neg_ℤ a) (omega (arith, *ℤ_parts a (negsuc 0), neg_ℤ_parts a))

pub zero-*ℤ : (s : ℤ) → pos 0 *ℤ s ≡ pos 0
zero-*ℤ s = eq_of_parts (pos 0 *ℤ s) (pos 0) (omega (arith, *ℤ_parts (pos 0) s))

pub one-*ℤ : (s : ℤ) → pos 1 *ℤ s ≡ s
one-*ℤ s = eq_of_parts (pos 1 *ℤ s) s (omega (arith, *ℤ_parts (pos 1) s))
