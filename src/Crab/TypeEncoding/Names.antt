-- ===== src/Crab/TypeEncoding/Names.antt =====
-- src/crab/type_encoding.rs: names are read back, and what is read has that name.
use Prim.Native.String.{String}
use text.Mathlib.Text.{◌==◌ as str_eq}
use text.Mathlib.TextEquality.{eq_iff}
use prevail_rust.Base.Tests.{◌≡◌, ◌↔◌, refl, sym, some, List, [], ◌∷◌, Bool-cases, inl, inr}
use prevail_rust.Crab.TypeEncoding.{
  DataKind, TypeEncoding, name_of, regkind, type_name, string_to_type_encoding, match_text,
  kind_names, type_names,
}

-- Every case of the match names its value.
abbrev Names {ℓ} : {A : Type ℓ} → (A → String) → List (String × A) → Type 0
Names print [] = Unit
Names print ((s, a) ∷ cases) = (print a ≡ s) × Names print cases

match_text-name {ℓ} :
    {A : Type ℓ} (print : A → String) (s : String) (cases : List (String × A)) {a : A}
    → Names print cases
    → match_text s cases ≡ some a
    → print a ≡ s
match_text-name print s [] n h = cc
match_text-name print s ((t, b) ∷ cases) n h = elim (Bool-cases (str_eq s t)) [
  | inl e ↦ cc ((eq_iff s t).0 e, n.0, rw e at h)
  | inr e ↦ match_text-name print s cases n.1 (rw e at h)
]

regkind-name : (k : DataKind) → regkind (name_of k) ≡ some k
unfolding regkind name_of
regkind-name DataKind.types = refl
regkind-name DataKind.svalues = refl
regkind-name DataKind.uvalues = refl
regkind-name DataKind.ctx_offsets = refl
regkind-name DataKind.map_fds = refl
regkind-name DataKind.map_fd_programs = refl
regkind-name DataKind.packet_offsets = refl
regkind-name DataKind.shared_offsets = refl
regkind-name DataKind.stack_offsets = refl
regkind-name DataKind.shared_region_sizes = refl
regkind-name DataKind.stack_numeric_sizes = refl
regkind-name DataKind.socket_offsets = refl
regkind-name DataKind.btf_id_offsets = refl
regkind-name DataKind.alloc_mem_offsets = refl
regkind-name DataKind.alloc_mem_sizes = refl

string_to_type_encoding-name : (t : TypeEncoding) → string_to_type_encoding (type_name t) ≡ some t
unfolding string_to_type_encoding type_name
string_to_type_encoding-name TypeEncoding.t_uninit = refl
string_to_type_encoding-name TypeEncoding.t_map_programs = refl
string_to_type_encoding-name TypeEncoding.t_map = refl
string_to_type_encoding-name TypeEncoding.t_num = refl
string_to_type_encoding-name TypeEncoding.t_ctx = refl
string_to_type_encoding-name TypeEncoding.t_packet = refl
string_to_type_encoding-name TypeEncoding.t_stack = refl
string_to_type_encoding-name TypeEncoding.t_shared = refl
string_to_type_encoding-name TypeEncoding.t_socket = refl
string_to_type_encoding-name TypeEncoding.t_btf_id = refl
string_to_type_encoding-name TypeEncoding.t_alloc_mem = refl
string_to_type_encoding-name TypeEncoding.t_func = refl

kinds_named : Names name_of kind_names
unfolding name_of
kinds_named = (
  refl,
  (
    refl,
    (
      refl,
      (
        refl,
        (refl, (refl, (refl, (refl, (refl, (refl, (refl, (refl, (refl, (refl, (refl, tt))))))))))),
      ),
    ),
  ),
)

types_named : Names type_name type_names
unfolding type_name
types_named = (
  refl,
  (refl, (refl, (refl, (refl, (refl, (refl, (refl, (refl, (refl, (refl, (refl, tt))))))))))),
)

pub regkind-name_of : (s : String) (k : DataKind) → (regkind s ≡ some k) ↔ (name_of k ≡ s)
regkind-name_of s k = (
  λ h. match_text-name name_of s kind_names kinds_named (unfold regkind in h),
  λ e. rw (sym e) (regkind-name k),
)

-- A string is read as a type exactly if it is the name that the type is printed with.
pub string_to_type_encoding-type_name :
    (s : String) (t : TypeEncoding) → (string_to_type_encoding s ≡ some t) ↔ (type_name t ≡ s)
string_to_type_encoding-type_name s t = (
  λ h. match_text-name type_name s type_names types_named (unfold string_to_type_encoding in h),
  λ e. rw (sym e) (string_to_type_encoding-name t),
)
