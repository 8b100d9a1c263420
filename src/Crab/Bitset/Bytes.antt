-- ===== src/Crab/Bitset/Bytes.antt =====
-- src/crab/bitset_domain.rs: the updates, the joins and the tests of a range, byte by byte.
use Prim.Native.Nat.{min}
use prevail_rust.Base.Tests.{
  ℕ, zero, suc, ◌+◌, ◌-◌, ◌≤◌, ◌<◌, ◌≡◌, ◌↔◌, ◌∙◌, refl, ap, Bool, true, false, not, ◌&&◌, ◌||◌,
  some, leb, ltb, ◌==◌, if◌then◌else◌, Bool-cases, inl, inr, arith, ◌⊎◌,
}
use prevail_rust.Base.Int.{ℤ, pos, pos_part}
use prevail_rust.Crab.Bitset
use prevail_rust.Crab.Bitset.{FixedBitSet, in_range}

module _ (F : FixedBitSet) where
  open F use {
    Bits, len, contains, insert_range, remove_range, contains_outside, contains-insert_range,
    contains-remove_range, contains-union, contains-intersection, is_subset_iff,
  }

  -- With a bit set that meets its laws: after a reset, the bytes from the lower bound on, as
  -- many as the width, are numerical, also where the range leaves the stack or the width is
  -- negative, and every other byte is what it was.
  pub reset-contains :
      (lb : ℕ) (n : ℤ) (b : Bits) (i : ℕ)
      → contains (Bitset.reset F lb n b) i ≡ (not (in_range lb (lb + pos_part n) i) && contains b i)
  unfolding Bitset.reset
  reset-contains lb n b i = elim (Bool-cases (leb (len b) lb)) [
    | inl beyond ↦ rw beyond (ground (arith, contains_outside b i))
    | inr within ↦ elim (Bool-cases (Bitset.clamp F b lb n == 0)) [
      | inl empty ↦ rw (within, empty) (ground (arith, contains_outside b i))
      | inr some_bytes ↦
          rw (within, some_bytes)
            (rw (contains-remove_range lb (lb + Bitset.clamp F b lb n) b i (ground arith))
              (ground (arith, contains_outside b i)))
    ]
  ]

  -- A byte is marked where it lies in the range and in the stack; nothing else changes.
  pub havoc-contains :
      (lb : ℕ) (width : ℤ) (b : Bits) (i : ℕ)
      → contains (Bitset.havoc F lb width b) i
        ≡ ((in_range lb (lb + pos_part width) i && ltb i (len b)) || contains b i)
  unfolding Bitset.havoc
  havoc-contains lb width b i = elim (Bool-cases (leb (len b) lb)) [
    | inl beyond ↦ rw beyond (ground arith)
    | inr within ↦ elim (Bool-cases (Bitset.clamp F b lb width == 0)) [
      | inl empty ↦ rw (within, empty) (ground arith)
      | inr some_bytes ↦
          rw (within, some_bytes)
            (rw (contains-insert_range lb (lb + Bitset.clamp F b lb width) b i (ground arith))
              (ground arith))
    ]
  ]

  -- The first byte of a range, and the rest of it.
  split_range : (i k n : ℕ) → i ≤ k → k < i + suc n → (k ≡ i) ⊎ ((suc i ≤ k) × (k < suc i + n))
  split_range i k n l u = ground arith

  all_num_loop_lem :
      (b : Bits) (count i : ℕ)
      → (Bitset.all_num_loop F b count i ≡ true)
        ↔ ((k : ℕ) → i ≤ k → k < i + count → contains b k ≡ false)
  unfolding Bitset.all_num_loop
  all_num_loop_lem b zero i = (λ h k l u. absurd (omega arith), λ h. refl)
  all_num_loop_lem b (suc count) i =
      let (sound, complete) = all_num_loop_lem b count (suc i) in
      (
        λ h k l u. elim (split_range i k count l u) [
          | inl here ↦ ap (contains b) here ∙ first h
          | inr later ↦ sound (others h) k later.0 later.1
        ],
        λ h.
            rw (h i (omega arith) (omega arith))
              (complete (λ k l u. h k (omega arith) (omega arith))),
      )
    where
      first :
          (if contains b i then false else Bitset.all_num_loop F b count (suc i)) ≡ true
          → contains b i ≡ false
      first h = ground arith

      others :
          (if contains b i then false else Bitset.all_num_loop F b count (suc i)) ≡ true
          → Bitset.all_num_loop F b count (suc i) ≡ true
      others h = ground arith

  all_num-loop :
      (b : Bits) (l u : ℕ)
      → l ≤ u
      → l ≤ len b
      → Bitset.all_num F b (pos l) (pos u) ≡ some (Bitset.all_num_loop F b (min u (len b) - l) l)
  unfolding Bitset.all_num Bitset.all_num_loop
  all_num-loop b l u order inside = elim (Bool-cases (l == u)) [
    | inl same ↦ ground (arith, ap bytes (nothing same))
    | inr other ↦ elim (Bool-cases (leb u (len b))) [
      | inl within ↦ ground (arith, ap bytes (all_of within))
      | inr beyond ↦ ground (arith, ap bytes (cut beyond))
    ]
  ]
    where
      bytes : ℕ → Bool
      bytes count = Bitset.all_num_loop F b count l

      nothing : (l == u) ≡ true → min u (len b) - l ≡ 0
      nothing h = ground arith

      all_of : leb u (len b) ≡ true → min u (len b) - l ≡ u - l
      all_of h = ground arith

      cut : leb u (len b) ≡ false → min u (len b) - l ≡ len b - l
      cut h = ground arith

  -- With a bit set that meets its laws, and bounds of which the lower is at most the upper and
  -- at most the number of bytes: the answer of all_num is true, without a panic, exactly if
  -- every byte from the lower bound up to the upper is numerical.
  pub all_num-contains :
      (b : Bits) (l u : ℕ)
      → l ≤ u
      → l ≤ len b
      → (Bitset.all_num F b (pos l) (pos u) ≡ some true)
        ↔ ((k : ℕ) → l ≤ k → k < u → contains b k ≡ false)
  all_num-contains b l u order inside = rw (all_num-loop b l u order inside) (
      let (sound, complete) = all_num_loop_lem b (min u (len b) - l) l in
      (
        λ h k low high. elim (Bool-cases (ltb k (len b))) [
          | inl within ↦ sound (cc) k low (ground arith)
          | inr beyond ↦ contains_outside b k (ground arith)
        ],
        λ h. ap some (complete (λ k low high. h k low (omega arith))),
      ))
