-- ===== src/Crab/Bitset/Ranges.antt =====
-- src/crab/bitset_domain.rs: `numerical_ranges` against the bytes themselves.
use prevail_rust.Base.Tests.{
  ℕ, zero, suc, ◌+◌, ◌-◌, ◌≤◌, ◌<◌, ◌≡◌, ap, ◌∙◌, ◌⊎◌, Bool, false, not, ◌&&◌, ◌||◌, List, [], ◌∷◌,
  leb, ltb, if◌then◌else◌, Bool-cases, inl, inr, arith,
}
use prevail_rust.Crab.Bitset
use prevail_rust.Crab.Bitset.{FixedBitSet, in_range}

-- Whether a byte lies in one of the ranges, whose last byte belongs to them.
abbrev pub covered : ℕ → List (ℕ × ℕ) → Bool
covered k [] = false
covered k ((first, last) ∷ ranges) = in_range first (suc last) k || covered k ranges

module _ (F : FixedBitSet) where
  open F use {Bits, len, contains, contains_outside}

  at_or_after : (i k : ℕ) → (k ≡ i) ⊎ ((suc i ≤ k) ⊎ (k < i))
  at_or_after i k = ground arith

  -- A run has no marked byte.
  numerical_run-clear :
      (b : Bits) (fuel i k : ℕ)
      → i ≤ k
      → k < i + Bitset.numerical_run F b fuel i
      → contains b k ≡ false
  unfolding Bitset.numerical_run
  numerical_run-clear b zero i k l u = absurd (omega arith)
  numerical_run-clear b (suc fuel) i k l u = elim (at_or_after i k) [
    | inl here ↦ ap (contains b) here ∙ unmarked u
    | inr (inl later) ↦ numerical_run-clear b fuel (suc i) k later (inner u)
    | inr (inr before) ↦ absurd (omega arith)
  ]
    where
      rest : ℕ
      rest = Bitset.numerical_run F b fuel (suc i)

      unmarked : k < i + (if contains b i then 0 else suc rest) → contains b i ≡ false
      unmarked h = ground arith

      inner : k < i + (if contains b i then 0 else suc rest) → k < suc i + rest
      inner h = ground arith

  numerical_run-le : (b : Bits) (fuel i : ℕ) → Bitset.numerical_run F b fuel i ≤ fuel
  unfolding Bitset.numerical_run
  numerical_run-le b zero i = omega arith
  numerical_run-le b (suc fuel) i = ground (arith, numerical_run-le b fuel (suc i))

  -- One range and what is covered behind it, against the bytes from its first one on.
  range_step :
      (b : Bits) (i r k : ℕ)
      → suc i + r ≤ len b
      → (i ≤ k → k < suc i + r → contains b k ≡ false)
      → (in_range i (suc (suc i + r - 1)) k
          || (leb (suc i + r) k && (ltb k (len b) && not (contains b k))))
        ≡ (leb i k && (ltb k (len b) && not (contains b k)))
  range_step b i r k bound clear = ground arith

  ranges_from-covered :
      (b : Bits) (fuel i k : ℕ)
      → len b ≤ fuel + i
      → covered k (Bitset.ranges_from F b fuel i)
        ≡ (leb i k && (ltb k (len b) && not (contains b k)))
  unfolding Bitset.ranges_from
  ranges_from-covered b zero i k h = ground arith
  ranges_from-covered b (suc fuel) i k h = elim (Bool-cases (leb (len b) i)) [
    | inl past ↦ rw past (ground arith)
    | inr within ↦ elim (Bool-cases (contains b i)) [
      | inl marked ↦
          rw (within, marked, ranges_from-covered b fuel (suc i) k (omega arith))
            (elim (at_or_after i k) [
              | inl here ↦ ground (arith, ap (contains b) here)
              | inr other ↦ ground arith
            ])
      | inr clear ↦
          let r = Bitset.numerical_run F b (len b - suc i) (suc i) in
          rw (within, clear)
            (rw (ranges_from-covered b fuel (suc i + r) k (omega arith)) (
              range_step b i r k (ground (arith, numerical_run-le b (len b - suc i) (suc i)))
                (λ l u. elim (at_or_after i k) [
                  | inl here ↦ ap (contains b) here ∙ clear
                  | inr (inl later) ↦ numerical_run-clear b (len b - suc i) (suc i) k later u
                  | inr (inr before) ↦ absurd (omega arith)
                ])))
    ]
  ]

  -- With a bit set that meets its laws: a byte lies in one of the numerical ranges exactly if it
  -- is a byte of the stack and numerical.
  pub numerical_ranges-covered :
      (b : Bits) (k : ℕ)
      → covered k (Bitset.numerical_ranges F b) ≡ (ltb k (len b) && not (contains b k))
  unfolding Bitset.numerical_ranges
  numerical_ranges-covered b k = ground (arith, ranges_from-covered b (len b) 0 k (omega arith))
