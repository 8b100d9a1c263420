-- ===== src/Crab/Bitset/Tests.antt =====
-- src/crab/bitset_domain.rs: the domain over lists of bits, and the theorems on a stack of six bytes.
use prevail_rust.Base.Tests.{
  ℕ, zero, suc, ◌+◌, ◌≤◌, ◌<◌, ◌≡◌, refl, sym, ap, Bool, true, false, not, ◌&&◌, ◌||◌, List, [],
  ◌∷◌, if◌then◌else◌, ltb, arith,
}
use prevail_rust.Base.Lists.{length, get_or, replicate, length-replicate}
use prevail_rust.Crab.Bitset
use prevail_rust.Crab.Bitset.{FixedBitSet, in_range}
use prevail_rust.Crab.Bitset.Ranges.{covered, numerical_ranges-covered}

abbrev bit : List Bool → ℕ → Bool
bit bs i = get_or bs i false

fill : Bool → ℕ → ℕ → List Bool → List Bool
fill v lo hi [] = []
fill v zero zero (b ∷ bs) = b ∷ bs
fill v zero (suc hi) (b ∷ bs) = v ∷ fill v zero hi bs
fill v (suc lo) zero (b ∷ bs) = b ∷ bs
fill v (suc lo) (suc hi) (b ∷ bs) = b ∷ fill v lo hi bs

length-fill : (v : Bool) (lo hi : ℕ) (bs : List Bool) → length (fill v lo hi bs) ≡ length bs
unfolding fill
length-fill v lo hi [] = refl
length-fill v zero zero (b ∷ bs) = refl
length-fill v zero (suc hi) (b ∷ bs) = ap suc (length-fill v zero hi bs)
length-fill v (suc lo) zero (b ∷ bs) = refl
length-fill v (suc lo) (suc hi) (b ∷ bs) = ap suc (length-fill v lo hi bs)

bit-fill :
    (v : Bool) (lo hi : ℕ) (bs : List Bool) (i : ℕ)
    → hi ≤ length bs
    → bit (fill v lo hi bs) i ≡ (if in_range lo hi i then v else bit bs i)
unfolding fill
bit-fill v lo hi [] i h = ground arith
bit-fill v zero zero (b ∷ bs) i h = ground arith
bit-fill v zero (suc hi) (b ∷ bs) zero h = ground arith
bit-fill v zero (suc hi) (b ∷ bs) (suc i) h = ground (arith, bit-fill v zero hi bs i)
bit-fill v (suc lo) zero (b ∷ bs) i h = ground arith
bit-fill v (suc lo) (suc hi) (b ∷ bs) zero h = ground arith
bit-fill v (suc lo) (suc hi) (b ∷ bs) (suc i) h = ground (arith, bit-fill v lo hi bs i)

bit_outside : (bs : List Bool) (i : ℕ) → length bs ≤ i → bit bs i ≡ false
bit_outside [] i h = refl
bit_outside (b ∷ bs) zero h = absurd (omega arith)
bit_outside (b ∷ bs) (suc i) h = bit_outside bs i (omega arith)

insert_law :
    (lo hi : ℕ) (bs : List Bool) (i : ℕ)
    → hi ≤ length bs
    → bit (fill true lo hi bs) i ≡ (in_range lo hi i || bit bs i)
insert_law lo hi bs i h = rw (bit-fill true lo hi bs i h) (ground arith)

remove_law :
    (lo hi : ℕ) (bs : List Bool) (i : ℕ)
    → hi ≤ length bs
    → bit (fill false lo hi bs) i ≡ (not (in_range lo hi i) && bit bs i)
remove_law lo hi bs i h = rw (bit-fill false lo hi bs i h) (ground arith)

zip_bits : (Bool → Bool → Bool) → List Bool → List Bool → List Bool
zip_bits op [] bs = []
zip_bits op (a ∷ xs) [] = a ∷ xs
zip_bits op (a ∷ xs) (b ∷ bs) = op a b ∷ zip_bits op xs bs

bit-zip :
    (op : Bool → Bool → Bool) (xs ys : List Bool) (i : ℕ)
    → op false false ≡ false
    → length xs ≡ length ys
    → bit (zip_bits op xs ys) i ≡ op (bit xs i) (bit ys i)
unfolding zip_bits
bit-zip op [] [] i o h = sym o
bit-zip op [] (y ∷ ys) i o h = absurd (omega arith)
bit-zip op (x ∷ xs) [] i o h = absurd (omega arith)
bit-zip op (x ∷ xs) (y ∷ ys) zero o h = refl
bit-zip op (x ∷ xs) (y ∷ ys) (suc i) o h = bit-zip op xs ys i o (omega arith)

subset : List Bool → List Bool → Bool
subset [] ys = true
subset (x ∷ xs) [] = not x && subset xs []
subset (x ∷ xs) (y ∷ ys) = (not x || y) && subset xs ys

subset_sound :
    (xs ys : List Bool) → subset xs ys ≡ true → (i : ℕ) → bit xs i ≡ true → bit ys i ≡ true
unfolding subset
subset_sound [] ys h i e = cc
subset_sound (x ∷ xs) [] h zero e = ground arith
subset_sound (x ∷ xs) [] h (suc i) e = subset_sound xs [] (ground arith) i e
subset_sound (x ∷ xs) (y ∷ ys) h zero e = ground arith
subset_sound (x ∷ xs) (y ∷ ys) h (suc i) e = subset_sound xs ys (ground arith) i e

subset_complete :
    (xs ys : List Bool) → ((i : ℕ) → bit xs i ≡ true → bit ys i ≡ true) → subset xs ys ≡ true
unfolding subset
subset_complete [] ys h = refl
subset_complete (x ∷ xs) [] h = ground (arith, h 0, subset_complete xs [] (λ i e. h (suc i) e))
subset_complete (x ∷ xs) (y ∷ ys) h =
    ground (arith, h 0, subset_complete xs ys (λ i e. h (suc i) e))

ones : List Bool → ℕ
ones [] = 0
ones (b ∷ bs) = (if b then 1 else 0) + ones bs

ones-le : (bs : List Bool) → ones bs ≤ length bs
unfolding ones
ones-le [] = omega arith
ones-le (b ∷ bs) = ground (arith, ones-le bs)

ones_sound : (bs : List Bool) → ones bs ≡ length bs → (i : ℕ) → i < length bs → bit bs i ≡ true
unfolding ones
ones_sound [] h i l = absurd (omega arith)
ones_sound (b ∷ bs) h zero l = ground (arith, ones-le bs)
ones_sound (b ∷ bs) h (suc i) l = ones_sound bs (ground (arith, ones-le bs)) i (omega arith)

ones_complete : (bs : List Bool) → ((i : ℕ) → i < length bs → bit bs i ≡ true) → ones bs ≡ length bs
unfolding ones
ones_complete [] h = refl
ones_complete (b ∷ bs) h = ground (arith, h 0, ones_complete bs (λ i l. h (suc i) (omega arith)))

abbrev list_bits : FixedBitSet
list_bits = record {
  Bits = List Bool;
  len = length;
  contains = bit;
  with_capacity = λ n. replicate n false;
  insert_range = fill true;
  remove_range = fill false;
  clear = λ bs. replicate (length bs) false;
  union = zip_bits ◌||◌;
  intersection = zip_bits ◌&&◌;
  is_subset = subset;
  count_ones = ones;
  contains_outside = bit_outside;
  len-with_capacity = λ n. length-replicate n false;
  len-insert_range = length-fill true;
  len-remove_range = length-fill false;
  contains-insert_range = insert_law;
  contains-remove_range = remove_law;
  contains-union = λ xs ys i h. bit-zip ◌||◌ xs ys i refl h;
  contains-intersection = λ xs ys i h. bit-zip ◌&&◌ xs ys i refl h;
  is_subset_iff = λ xs ys. (subset_sound xs ys, subset_complete xs ys);
  count_ones_iff = λ bs. (ones_sound bs, ones_complete bs);
}

-- Bytes 1, 2 and 4 are numerical.
abbrev stack : List Bool
stack = true ∷ false ∷ false ∷ true ∷ false ∷ true ∷ []

ranges_of_stack : Bitset.numerical_ranges list_bits stack ≡ (1, 2) ∷ (4, 4) ∷ []
unfolding Bitset.numerical_ranges
ranges_of_stack = refl

numerical_ranges-covered_example :
    covered 2 (Bitset.numerical_ranges list_bits stack) ≡ (ltb 2 6 && not (bit stack 2))
numerical_ranges-covered_example = numerical_ranges-covered list_bits stack 2
