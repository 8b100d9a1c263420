-- ===== src/Crab/Interval/Bitwise/Left.antt =====
-- src/crab/interval.rs: the factor by which `shl` multiplies and `ashr` divides.
use native.Mathlib.Nat.{pow-suc, pow-le-pow_right}
use prevail_rust.Base.Tests.{
  ℕ, zero, suc, ◌*◌, ◌^◌, ◌<◌, ◌≤◌, ◌≡◌, ◌⊎◌, inl, inr, Bool-cases, ltb→lt, ltb-false→le,
  if◌then◌else◌, refl, Option, none, some, true, false, arith, ltb,
}
use prevail_rust.Base.Int.{pos, ◌*ℤ◌}
use prevail_rust.Arith.Number.{Number, checked_mul}
use prevail_rust.Arith.Extended.Sums.{checked-some}
use prevail_rust.Crab.Interval.{Interval, singleton}
use prevail_rust.Crab.Interval.Bitwise.{power, shift_to_power_of_two}

doubled : (n : ℕ) → n ≤ 2 ^ 125 → checked_mul (pos n) (pos 2) ≡ some (pos (n * 2))
unfolding checked_mul ◌*ℤ◌
doubled n h = rw product (checked-some (pos (n * 2)) (omega arith, omega arith))
  where
    product : pos n *ℤ pos 2 ≡ pos (n * 2)
    product = ground arith

power-pow : (k : ℕ) → k ≤ 126 → power k ≡ some (pos (2 ^ k))
unfolding power
power-pow zero h = refl
power-pow (suc k) h =
    let bound : 2 ^ k ≤ 2 ^ 125 =
      pow-le-pow_right {n = 2} (omega arith) {i = k} {j = 125} (omega arith) in
    rw (power-pow k (omega arith), pow-suc 2 k) (doubled (2 ^ k) bound)

power_127 : power 127 ≡ none
unfolding power checked_mul ◌*ℤ◌
power_127 = refl

power_128 : power 128 ≡ none
unfolding power checked_mul ◌*ℤ◌
power_128 = refl

-- What a constant shift count is turned into: a panic at 127 and 128, and no factor above.
abbrev pub factor_of : ℕ → Option (Option Number)
factor_of k = if ltb 128 k then some none else if ltb 126 k then none else some (some (pos (2 ^ k)))

-- For an interval that holds one constant that is not negative, the shift factor is the power of
-- two up to 126, a panic at 127 and 128, where the doubling overflows, and absent above 128.
pub shift_to_power_of_two-factor_of :
    (x : Interval) (k : ℕ) → singleton x ≡ some (pos k) → shift_to_power_of_two x ≡ factor_of k
unfolding shift_to_power_of_two
shift_to_power_of_two-factor_of x k constant = rw constant (elim (Bool-cases (ltb 128 k)) [
  | inl beyond ↦ rw beyond refl
  | inr within ↦ elim (Bool-cases (ltb 126 k)) [
    | inl high ↦ rw (within, high, overflow k high within) refl
    | inr low ↦ rw (within, low, power-pow k (ltb-false→le 126 k low)) refl
  ]
])
  where
    cases : (k : ℕ) → 126 < k → k ≤ 128 → (k ≡ 127) ⊎ (k ≡ 128)
    cases k h l = ground arith

    overflow : (k : ℕ) → ltb 126 k ≡ true → ltb 128 k ≡ false → power k ≡ none
    overflow k high within = elim (cases k (ltb→lt 126 k high) (ltb-false→le 128 k within)) [
      | inl e ↦ rw e power_127
      | inr e ↦ rw e power_128
    ]
