-- ===== src/Crab/Interval/Extend/Window.antt =====
-- Remainders over a window of fewer than m numbers: they keep the order unless the window wraps.
-- This is what the inversion test of the extensions in src/crab/interval.rs relies on.
use native.Mathlib.Nat.{div-add-mod, mod-lt, mul-le-mul_left}
use prevail_rust.Base.Tests.{ℕ, suc, ◌+◌, ◌*◌, ◌/◌, ◌%◌, ◌≤◌, ◌<◌, ◌≡◌, ◌⊎◌, inl, inr, arith, ap}

lt_or_le : (a b : ℕ) → (suc a ≤ b) ⊎ (b ≤ a)
lt_or_le a b = omega arith

div_mono : (m l u : ℕ) → 0 < m → l ≤ u → l / m ≤ u / m
div_mono m l u p h = elim (lt_or_le (u / m) (l / m)) [
  | inl less ↦
      let steps = mul-le-mul_left m less in
      absurd (omega (arith, div-add-mod l m, div-add-mod u m, mod-lt u p, steps))
  | inr more ↦ more
]

same_quotient : (m l u : ℕ) → 0 < m → l ≤ u → u < l + m → l % m ≤ u % m → u / m ≤ l / m
same_quotient m l u p h k r = elim (lt_or_le (l / m) (u / m)) [
  | inl less ↦
      let steps = mul-le-mul_left m less in
      absurd (omega (arith, div-add-mod l m, div-add-mod u m, mod-lt l p, steps))
  | inr more ↦ more
]

-- If the ends of the window are in order after the remainder, so is everything between.
pub window :
    (m l a u : ℕ)
    → 0 < m
    → l ≤ a
    → a ≤ u
    → u < l + m
    → l % m ≤ u % m
    → (l % m ≤ a % m) × (a % m ≤ u % m)
window m l a u p h k d r =
    let top = same_quotient m l u p (omega arith) d r in
    let la = div_mono m l a p h in
    let au = div_mono m a u p k in
    let qa : m * (a / m) ≡ m * (l / m) = ap (λ (t : ℕ). m * t) (omega arith) in
    let qu : m * (u / m) ≡ m * (l / m) = ap (λ (t : ℕ). m * t) (omega arith) in
    let dl = div-add-mod l m in
    let da = div-add-mod a m in let du = div-add-mod u m in (omega arith, omega arith)
