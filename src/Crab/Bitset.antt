-- ===== src/Crab/Bitset.antt =====
-- src/crab/bitset_domain.rs: which bytes of the stack are numerical. The bits are kept by the
-- package `fixedbitset`, which is an interface here. Lengths are below 2 ^ 31, so that a number of
-- bytes is the `i32` that the source casts it to.
use prevail_rust.Base.Tests.{
  ℕ, zero, suc, ◌+◌, ◌-◌, ◌≤◌, ◌<◌, ◌≡◌, ◌↔◌, Bool, true, false, not, ◌&&◌, ◌||◌, Option, none,
  some, List, [], ◌∷◌, leb, ltb, ◌==◌, if◌then◌else◌,
}
use prevail_rust.Base.Int.{ℤ, pos, pos_part, leb_ℤ, eqb_ℤ}
use Prim.Native.Nat.{min}
pub mod Bytes
pub mod Ranges
mod Tests

abbrev pub in_range : ℕ → ℕ → ℕ → Bool
in_range lo hi i = leb lo i && ltb i hi

-- What the source relies on of `FixedBitSet`: a bit past the length reads as unset, the ranges are
-- half open, and both operands of a binary operation have one length.
pub record FixedBitSet : Type 1 where
  pub Bits : Type 0
  pub len : Bits → ℕ
  pub contains : Bits → ℕ → Bool
  pub with_capacity : ℕ → Bits
  pub insert_range : ℕ → ℕ → Bits → Bits
  pub remove_range : ℕ → ℕ → Bits → Bits
  pub clear : Bits → Bits
  pub union : Bits → Bits → Bits
  pub intersection : Bits → Bits → Bits
  pub is_subset : Bits → Bits → Bool
  pub count_ones : Bits → ℕ
  pub contains_outside : (b : Bits) (i : ℕ) → len b ≤ i → contains b i ≡ false
  pub len-with_capacity : (n : ℕ) → len (with_capacity n) ≡ n
  pub len-insert_range : (lo hi : ℕ) (b : Bits) → len (insert_range lo hi b) ≡ len b
  pub len-remove_range : (lo hi : ℕ) (b : Bits) → len (remove_range lo hi b) ≡ len b
  pub contains-insert_range :
      (lo hi : ℕ) (b : Bits) (i : ℕ)
      → hi ≤ len b
      → contains (insert_range lo hi b) i ≡ (in_range lo hi i || contains b i)
  pub contains-remove_range :
      (lo hi : ℕ) (b : Bits) (i : ℕ)
      → hi ≤ len b
      → contains (remove_range lo hi b) i ≡ (not (in_range lo hi i) && contains b i)
  pub contains-union :
      (a b : Bits) (i : ℕ) → len a ≡ len b → contains (union a b) i ≡ (contains a i || contains b i)
  pub contains-intersection :
      (a b : Bits) (i : ℕ)
      → len a ≡ len b
      → contains (intersection a b) i ≡ (contains a i && contains b i)
  pub is_subset_iff :
      (a b : Bits) → (is_subset a b ≡ true) ↔ ((i : ℕ) → contains a i ≡ true → contains b i ≡ true)
  pub count_ones_iff :
      (b : Bits) → (count_ones b ≡ len b) ↔ ((i : ℕ) → i < len b → contains b i ≡ true)

module _ (F : FixedBitSet) where
  open F use {
    Bits, len, contains, with_capacity, insert_range, remove_range, clear, union, intersection,
    is_subset, count_ones,
  }

  -- The bits of a `BitsetDomain`; 1 is a byte that is not numerical.
  abbrev pub BitsetDomain : Type 0
  BitsetDomain = Bits

  unfoldable pub set_to_top : BitsetDomain → BitsetDomain
  set_to_top b = insert_range 0 (len b) b

  unfoldable pub new : ℤ → BitsetDomain
  unfolding set_to_top
  new total_bits = set_to_top (with_capacity (pos_part total_bits))

  unfoldable pub set_to_bottom : BitsetDomain → BitsetDomain
  set_to_bottom b = clear b

  unfoldable pub is_top : BitsetDomain → Bool
  is_top b = count_ones b == len b

  abbrev pub is_bottom : BitsetDomain → Bool
  is_bottom b = false

  -- A failed `assert_eq!` of the lengths is `none`.
  unfoldable pub is_included_in : BitsetDomain → BitsetDomain → Option Bool
  is_included_in a b = if len a == len b then some (is_subset a b) else none

  unfoldable pub join : BitsetDomain → BitsetDomain → Option BitsetDomain
  join a b = if len a == len b then some (union a b) else none

  unfoldable pub meet : BitsetDomain → BitsetDomain → Option BitsetDomain
  meet a b = if len a == len b then some (intersection a b) else none

  unfoldable pub join_assign : BitsetDomain → BitsetDomain → Option BitsetDomain
  join_assign a b = if len a == len b then some (union a b) else none

  unfoldable pub widen : BitsetDomain → BitsetDomain → Option BitsetDomain
  unfolding join
  widen a b = join a b

  unfoldable pub narrow : BitsetDomain → BitsetDomain → Option BitsetDomain
  unfolding meet
  narrow a b = meet a b

  -- `j` in 0..width, from the byte i on.
  unfoldable pub uniformity_loop : BitsetDomain → ℕ → ℕ → Bool × Bool → Bool × Bool
  uniformity_loop b zero i flags = flags
  uniformity_loop b (suc width) i (only_num, only_non_num) =
      uniformity_loop b width (suc i) (only_num && not (contains b i), only_non_num && contains b i)

  -- A width below zero has no byte.
  abbrev pub clamp : BitsetDomain → ℕ → ℤ → ℕ
  clamp b lb width = min (pos_part width) (len b - lb)

  unfoldable pub uniformity : BitsetDomain → ℕ → ℤ → Bool × Bool
  unfolding uniformity_loop
  uniformity b lb width =
      if leb (len b) lb then (true, true) else uniformity_loop b (clamp b lb width) lb (true, true)

  -- The bytes from i on that are numerical, up to `fuel`.
  unfoldable pub numerical_run : BitsetDomain → ℕ → ℕ → ℕ
  numerical_run b zero i = 0
  numerical_run b (suc fuel) i =
      let rest = numerical_run b fuel (suc i) in if contains b i then 0 else suc rest

  unfoldable pub all_num_width : BitsetDomain → ℕ → ℕ
  unfolding numerical_run
  all_num_width b lb = if leb (len b) lb then 0 else numerical_run b (len b - lb) lb

  unfoldable pub reset : ℕ → ℤ → BitsetDomain → BitsetDomain
  reset lb n b =
      if leb (len b) lb
      then b
      else if clamp b lb n == 0
      then b
      else remove_range lb (lb + clamp b lb n) b

  unfoldable pub havoc : ℕ → ℤ → BitsetDomain → BitsetDomain
  havoc lb width b =
      if leb (len b) lb
      then b
      else if clamp b lb width == 0
      then b
      else insert_range lb (lb + clamp b lb width) b

  -- The loop of `numerical_ranges` from i on; a range has its first and its last byte.
  unfoldable pub ranges_from : BitsetDomain → ℕ → ℕ → List (ℕ × ℕ)
  unfolding numerical_run
  ranges_from b zero i = []
  ranges_from b (suc fuel) i =
      let j = suc i + numerical_run b (len b - suc i) (suc i) in
      let after_set = ranges_from b fuel (suc i) in
      let after_run = ranges_from b fuel j in
      if leb (len b) i then [] else if contains b i then after_set else ((i, j - 1) ∷ after_run)

  unfoldable pub numerical_ranges : BitsetDomain → List (ℕ × ℕ)
  unfolding ranges_from
  numerical_ranges b = ranges_from b (len b) 0

  unfoldable pub all_num_loop : BitsetDomain → ℕ → ℕ → Bool
  all_num_loop b zero i = true
  all_num_loop b (suc count) i =
      let rest = all_num_loop b count (suc i) in if contains b i then false else rest

  -- The bounds are cut to the stack; bounds that are then out of order fail the assertion.
  unfoldable pub all_num : BitsetDomain → ℤ → ℤ → Option Bool
  unfolding all_num_loop
  all_num b lb ub =
      let lo = pos_part lb in
      let hi = if leb_ℤ ub (pos (len b)) then ub else pos (len b) in
      if eqb_ℤ lb ub
      then some true
      else if leb_ℤ (pos lo) hi
      then some (all_num_loop b (pos_part hi - lo) lo)
      else none
