-- ===== src/Crab/TypeEncoding/Sets/Members.antt =====
-- src/crab/type_encoding.rs: the operations of `TypeSet` are those of sets of types.
use Prim.Native.Nat.{min, max, bit_and, bit_or}
use prevail_rust.Base.Tests.{
  passes, passes-below, ℕ, ◌+◌, ◌^◌, ◌<◌, ◌≡◌, ◌↔◌, refl, sym, ap, ◌∙◌, arith, Bool, true, not,
  ◌==◌, ◌&&◌, ◌||◌, if◌then◌else◌, Bool-cases, ==_iff, inl, inr,
}
use prevail_rust.Base.Bits.Digits.{digit, digit-bit_and, digit-bit_or, bit_test, bit_and-le}
use prevail_rust.Crab.TypeEncoding.{TypeEncoding, type_to_bit}
use prevail_rust.Crab.TypeEncoding.Sets.{
  TypeSet, bit, complement, contains, union, intersect, remove, singleton, is_subset_of,
}

-- The bit of a type, as a number.
abbrev pub bit_of : TypeSet → TypeEncoding → ℕ
bit_of s t = digit (type_to_bit t) s

pub contains-bit_of : (s : TypeSet) (t : TypeEncoding) → contains s t ≡ (bit_of s t == 1)
unfolding contains
contains-bit_of s t = bit_test (type_to_bit t) s

pub bit_of-complement :
    (s : TypeSet) (t : TypeEncoding) → s < 2 ^ 16 → bit_of (complement s) t + bit_of s t ≡ 1
bit_of-complement s TypeEncoding.t_uninit h = omega arith
bit_of-complement s TypeEncoding.t_map_programs h = omega arith
bit_of-complement s TypeEncoding.t_map h = omega arith
bit_of-complement s TypeEncoding.t_num h = omega arith
bit_of-complement s TypeEncoding.t_ctx h = omega arith
bit_of-complement s TypeEncoding.t_packet h = omega arith
bit_of-complement s TypeEncoding.t_stack h = omega arith
bit_of-complement s TypeEncoding.t_shared h = omega arith
bit_of-complement s TypeEncoding.t_socket h = omega arith
bit_of-complement s TypeEncoding.t_btf_id h = omega arith
bit_of-complement s TypeEncoding.t_alloc_mem h = omega arith
bit_of-complement s TypeEncoding.t_func h = omega arith

below_12 : (t : TypeEncoding) → type_to_bit t < 12
below_12 TypeEncoding.t_uninit = omega arith
below_12 TypeEncoding.t_map_programs = omega arith
below_12 TypeEncoding.t_map = omega arith
below_12 TypeEncoding.t_num = omega arith
below_12 TypeEncoding.t_ctx = omega arith
below_12 TypeEncoding.t_packet = omega arith
below_12 TypeEncoding.t_stack = omega arith
below_12 TypeEncoding.t_shared = omega arith
below_12 TypeEncoding.t_socket = omega arith
below_12 TypeEncoding.t_btf_id = omega arith
below_12 TypeEncoding.t_alloc_mem = omega arith
below_12 TypeEncoding.t_func = omega arith

abbrev one_digit : ℕ → ℕ → Bool
one_digit i j = (digit i (2 ^ j) == 1) && (i == j) || (digit i (2 ^ j) == 0) && not (i == j)

powers : passes (λ i. passes (one_digit i) 0 12) 0 12 ≡ true
unfolding passes
powers = refl

-- The bit of a type stands in the set of that type alone.
bit_of-bit :
    (t u : TypeEncoding) → bit_of (bit u) t ≡ (if type_to_bit t == type_to_bit u then 1 else 0)
bit_of-bit t u =
    let row =
      passes-below (λ i. passes (one_digit i) 0 12) 12 (type_to_bit t) powers (below_12 t) in
    let entry = passes-below (one_digit (type_to_bit t)) 12 (type_to_bit u) row (below_12 u) in
    ground (arith, entry)

bit-lt : (t : TypeEncoding) → bit t < 2 ^ 16
bit-lt TypeEncoding.t_uninit = omega arith
bit-lt TypeEncoding.t_map_programs = omega arith
bit-lt TypeEncoding.t_map = omega arith
bit-lt TypeEncoding.t_num = omega arith
bit-lt TypeEncoding.t_ctx = omega arith
bit-lt TypeEncoding.t_packet = omega arith
bit-lt TypeEncoding.t_stack = omega arith
bit-lt TypeEncoding.t_shared = omega arith
bit-lt TypeEncoding.t_socket = omega arith
bit-lt TypeEncoding.t_btf_id = omega arith
bit-lt TypeEncoding.t_alloc_mem = omega arith
bit-lt TypeEncoding.t_func = omega arith

max_test : (x y : ℕ) → x < 2 → y < 2 → (max x y == 1) ≡ ((x == 1) || (y == 1))
max_test x y h k = ground arith

min_test : (x y : ℕ) → x < 2 → y < 2 → (min x y == 1) ≡ ((x == 1) && (y == 1))
min_test x y h k = ground arith

union-contains :
    (a b : TypeSet) (u : TypeEncoding) → contains (union a b) u ≡ (contains a u || contains b u)
unfolding union
union-contains a b u =
    rw (contains-bit_of (bit_or a b) u, contains-bit_of a u, contains-bit_of b u)
      (rw (digit-bit_or (type_to_bit u) a b) (max_test _ _ (omega arith) (omega arith)))

bit_and-contains :
    (a b : TypeSet) (u : TypeEncoding)
    → contains (bit_and a b) u ≡ (contains a u && (bit_of b u == 1))
bit_and-contains a b u =
    rw (contains-bit_of (bit_and a b) u, contains-bit_of a u)
      (rw (digit-bit_and (type_to_bit u) a b) (min_test _ _ (omega arith) (omega arith)))

singleton-contains :
    (t u : TypeEncoding) → contains (singleton t) u ≡ (type_to_bit u == type_to_bit t)
unfolding singleton
singleton-contains t u = rw (contains-bit_of (bit t) u) (ground (arith, bit_of-bit u t))

remove-contains :
    (a : TypeSet) (t u : TypeEncoding)
    → contains (remove a t) u ≡ (contains a u && not (type_to_bit u == type_to_bit t))
unfolding remove
remove-contains a t u =
    bit_and-contains a (complement (bit t)) u ∙ ap (λ b. contains a u && b) removed
  where
    removed : (bit_of (complement (bit t)) u == 1) ≡ not (type_to_bit u == type_to_bit t)
    removed = ground (arith, bit_of-complement (bit t) u (bit-lt t), bit_of-bit u t)

-- A type is in the union of two sets of types exactly if it is in one of them, in the
-- intersection exactly if it is in both, in a set with a type removed exactly if it is in the
-- set and is not that type, and in a singleton exactly if it is its type.
pub set_operations-contains :
    (a b : TypeSet) (t u : TypeEncoding)
    → (contains (union a b) u ≡ (contains a u || contains b u))
      × (contains (intersect a b) u ≡ (contains a u && contains b u))
      × (contains (remove a t) u ≡ (contains a u && not (type_to_bit u == type_to_bit t)))
      × (contains (singleton t) u ≡ (type_to_bit u == type_to_bit t))
unfolding intersect
set_operations-contains a b t u = (
  union-contains a b u,
  bit_and-contains a b u ∙ ap (λ c. contains a u && c) (sym (contains-bit_of b u)),
  remove-contains a t u,
  singleton-contains t u,
)

zero_bit : (n : ℕ) (t : TypeEncoding) → n ≡ 0 → bit_of n t ≡ 0
zero_bit n TypeEncoding.t_uninit h = omega arith
zero_bit n TypeEncoding.t_map_programs h = omega arith
zero_bit n TypeEncoding.t_map h = omega arith
zero_bit n TypeEncoding.t_num h = omega arith
zero_bit n TypeEncoding.t_ctx h = omega arith
zero_bit n TypeEncoding.t_packet h = omega arith
zero_bit n TypeEncoding.t_stack h = omega arith
zero_bit n TypeEncoding.t_shared h = omega arith
zero_bit n TypeEncoding.t_socket h = omega arith
zero_bit n TypeEncoding.t_btf_id h = omega arith
zero_bit n TypeEncoding.t_alloc_mem h = omega arith
zero_bit n TypeEncoding.t_func h = omega arith

-- A number below 2^12 is zero if all its bits are.
all_clear : (n : TypeSet) → n < 2 ^ 12 → ((t : TypeEncoding) → bit_of n t ≡ 0) → n ≡ 0
all_clear n h z = omega (
  arith,
  z TypeEncoding.t_uninit,
  z TypeEncoding.t_map_programs,
  z TypeEncoding.t_map,
  z TypeEncoding.t_num,
  z TypeEncoding.t_ctx,
  z TypeEncoding.t_packet,
  z TypeEncoding.t_stack,
  z TypeEncoding.t_shared,
  z TypeEncoding.t_socket,
  z TypeEncoding.t_btf_id,
  z TypeEncoding.t_alloc_mem,
  z TypeEncoding.t_func,
)

-- For two sets of the known types, is_subset_of is true exactly if every type in the first is in
-- the second.
pub is_subset_of-contains :
    (a b : TypeSet)
    → a < 2 ^ 12
    → b < 2 ^ 16
    → (is_subset_of a b ≡ true) ↔ ((t : TypeEncoding) → contains a t ≡ true → contains b t ≡ true)
unfolding is_subset_of
is_subset_of-contains a b ha hb = (only, back)
  where
    both :
        (t : TypeEncoding)
        → bit_of (bit_and a (complement b)) t ≡ min (bit_of a t) (bit_of (complement b) t)
    both t = digit-bit_and (type_to_bit t) a (complement b)

    only :
        (bit_and a (complement b) == 0) ≡ true
        → (t : TypeEncoding) → contains a t ≡ true
        → contains b t ≡ true
    only e t inside = rw (contains-bit_of b t) (
        ground (
          arith,
          both t,
          zero_bit (bit_and a (complement b)) t (ground arith),
          bit_of-complement b t hb,
          (rw (contains-bit_of a t) at inside),
        ))

    back :
        ((t : TypeEncoding) → contains a t ≡ true → contains b t ≡ true)
        → (bit_and a (complement b) == 0) ≡ true
    back f =
        (==_iff _ 0).1
          (all_clear (bit_and a (complement b)) (omega (arith, bit_and-le a (complement b))) clear)
      where
        clear : (t : TypeEncoding) → bit_of (bit_and a (complement b)) t ≡ 0
        clear t = elim (Bool-cases (contains a t)) [
          | inl inside ↦
              ground (
                arith,
                both t,
                bit_of-complement b t hb,
                (rw (contains-bit_of b t) at (f t inside)),
              )
          | inr outside ↦ ground (arith, both t, (rw (contains-bit_of a t) at outside))
        ]
