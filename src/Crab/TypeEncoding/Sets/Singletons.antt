-- ===== src/Crab/TypeEncoding/Sets/Singletons.antt =====
-- src/crab/type_encoding.rs: sets of one type, and the order in which a set is walked.
use mathlib.Core.Path.{subst}
use prevail_rust.Base.Lists.{length}
use prevail_rust.Base.Tests.{
  passes, passes-below, and-true, ==_iff, if◌then◌else◌, ◌<◌, ◌^◌, ◌≡◌, ◌↔◌, refl, Bool, true,
  false, ◌&&◌, ◌==◌, List, [], ◌∷◌, Option, none, some,
}
use prevail_rust.Crab.TypeEncoding.{TypeEncoding, type_to_bit, type_of_index, int_to_type_encoding}
use prevail_rust.Crab.TypeEncoding.Sets.{
  TypeSet, TypeGroup, bit, as_singleton, singleton, iter, contains, len, is_singleton, to_typeset,
  is_singleton_type,
}

-- A group stands for one type exactly if its set has one element.
pub is_singleton_type-is_singleton :
    (g : TypeGroup) → is_singleton_type g ≡ is_singleton (to_typeset g)
unfolding is_singleton_type is_singleton to_typeset
is_singleton_type-is_singleton TypeGroup.number = refl
is_singleton_type-is_singleton TypeGroup.map_fd = refl
is_singleton_type-is_singleton TypeGroup.ctx = refl
is_singleton_type-is_singleton TypeGroup.ctx_or_num = refl
is_singleton_type-is_singleton TypeGroup.packet = refl
is_singleton_type-is_singleton TypeGroup.stack = refl
is_singleton_type-is_singleton TypeGroup.stack_or_num = refl
is_singleton_type-is_singleton TypeGroup.shared = refl
is_singleton_type-is_singleton TypeGroup.map_fd_programs = refl
is_singleton_type-is_singleton TypeGroup.mem = refl
is_singleton_type-is_singleton TypeGroup.mem_or_num = refl
is_singleton_type-is_singleton TypeGroup.dereferenceable = refl
is_singleton_type-is_singleton TypeGroup.pointer = refl
is_singleton_type-is_singleton TypeGroup.ptr_or_num = refl
is_singleton_type-is_singleton TypeGroup.stack_or_packet = refl
is_singleton_type-is_singleton TypeGroup.singleton_ptr = refl
is_singleton_type-is_singleton TypeGroup.socket = refl
is_singleton_type-is_singleton TypeGroup.btf_id = refl
is_singleton_type-is_singleton TypeGroup.alloc_mem = refl
is_singleton_type-is_singleton TypeGroup.func = refl

abbrev pub all_types : List TypeEncoding
all_types =
    TypeEncoding.t_uninit ∷ TypeEncoding.t_map_programs ∷ TypeEncoding.t_map ∷ TypeEncoding.t_num
    ∷ TypeEncoding.t_ctx ∷ TypeEncoding.t_packet ∷ TypeEncoding.t_stack ∷ TypeEncoding.t_shared
    ∷ TypeEncoding.t_socket ∷ TypeEncoding.t_btf_id ∷ TypeEncoding.t_alloc_mem ∷ TypeEncoding.t_func
    ∷ []

-- The types of a set in the order of their bits, and its size, by the test of membership alone.
abbrev pub members_of : TypeSet → List TypeEncoding → List TypeEncoding
members_of s [] = []
members_of s (t ∷ types) = let rest = members_of s types in if contains s t then t ∷ rest else rest

abbrev eq_bits : List TypeEncoding → List TypeEncoding → Bool
eq_bits [] [] = true
eq_bits [] (u ∷ us) = false
eq_bits (t ∷ ts) [] = false
eq_bits (t ∷ ts) (u ∷ us) = (type_to_bit t == type_to_bit u) && eq_bits ts us

abbrev is_walked : TypeSet → Bool
is_walked s =
    eq_bits (iter s) (members_of s all_types) && (len s == length (members_of s all_types))

walked : passes is_walked 0 4096 ≡ true
unfolding passes iter contains len int_to_type_encoding
walked = refl

type_of_index-type_to_bit : (t : TypeEncoding) → type_of_index (type_to_bit t) ≡ some t
type_of_index-type_to_bit TypeEncoding.t_uninit = refl
type_of_index-type_to_bit TypeEncoding.t_map_programs = refl
type_of_index-type_to_bit TypeEncoding.t_map = refl
type_of_index-type_to_bit TypeEncoding.t_num = refl
type_of_index-type_to_bit TypeEncoding.t_ctx = refl
type_of_index-type_to_bit TypeEncoding.t_packet = refl
type_of_index-type_to_bit TypeEncoding.t_stack = refl
type_of_index-type_to_bit TypeEncoding.t_shared = refl
type_of_index-type_to_bit TypeEncoding.t_socket = refl
type_of_index-type_to_bit TypeEncoding.t_btf_id = refl
type_of_index-type_to_bit TypeEncoding.t_alloc_mem = refl
type_of_index-type_to_bit TypeEncoding.t_func = refl

eq_bits-eq : (ts us : List TypeEncoding) → eq_bits ts us ≡ true → ts ≡ us
eq_bits-eq [] [] h = refl
eq_bits-eq [] (u ∷ us) h = cc
eq_bits-eq (t ∷ ts) [] h = cc
eq_bits-eq (t ∷ ts) (u ∷ us) h =
    let (same, rest) = and-true (type_to_bit t == type_to_bit u) (eq_bits ts us) h in
    cc (
      eq_bits-eq ts us rest,
      (==_iff (type_to_bit t) (type_to_bit u)).0 same,
      type_of_index-type_to_bit t,
      type_of_index-type_to_bit u,
    )

-- For a set of the known types, the iteration gives the types that are in the set, each once and
-- in the order of their encoding, and the length of the set is their number.
pub iter-members_of :
    (s : TypeSet) → s < 2 ^ 12 → (iter s ≡ members_of s all_types) × (len s ≡ length (iter s))
iter-members_of s h =
    let found = passes-below is_walked 4096 s walked h in
    let (listed, counted) =
      and-true (eq_bits (iter s) (members_of s all_types))
        (len s == length (members_of s all_types)) found in
    let same = eq_bits-eq (iter s) (members_of s all_types) listed in
    (same, rw same ((==_iff (len s) (length (members_of s all_types))).0 counted))

abbrev is_type_of : TypeSet → Option TypeEncoding → Bool
is_type_of s none = true
is_type_of s (some t) = s == bit t

abbrev is_single : TypeSet → Bool
is_single s = is_type_of s (as_singleton s)

single : passes is_single 0 4096 ≡ true
unfolding passes as_singleton int_to_type_encoding
single = refl

as_singleton-bit : (t : TypeEncoding) → as_singleton (bit t) ≡ some t
unfolding as_singleton int_to_type_encoding
as_singleton-bit TypeEncoding.t_uninit = refl
as_singleton-bit TypeEncoding.t_map_programs = refl
as_singleton-bit TypeEncoding.t_map = refl
as_singleton-bit TypeEncoding.t_num = refl
as_singleton-bit TypeEncoding.t_ctx = refl
as_singleton-bit TypeEncoding.t_packet = refl
as_singleton-bit TypeEncoding.t_stack = refl
as_singleton-bit TypeEncoding.t_shared = refl
as_singleton-bit TypeEncoding.t_socket = refl
as_singleton-bit TypeEncoding.t_btf_id = refl
as_singleton-bit TypeEncoding.t_alloc_mem = refl
as_singleton-bit TypeEncoding.t_func = refl

-- For a set of the known types, as_singleton answers a type exactly if the set is the singleton
-- of that type.
pub as_singleton-singleton :
    (s : TypeSet) (t : TypeEncoding) → s < 2 ^ 12 → (as_singleton s ≡ some t) ↔ (s ≡ singleton t)
unfolding singleton
as_singleton-singleton s t h = (
  λ e.
      (==_iff s (bit t)).0
        (subst (λ o. is_type_of s o ≡ true) e (passes-below is_single 4096 s single h)),
  λ e. rw e (as_singleton-bit t),
)
