-- ===== src/Ir/Assertions/Calls/Arguments.antt =====
-- src/ir/assertions.rs: when the assertions of a call exist, and the registers that they name.
use prevail_rust.Base.Tests.{
  ◌≡◌, refl, Option, none, some, Bool, true, false, not, List, [], ◌∷◌, ◌++◌, ◌>>=◌, if◌then◌else◌,
  ◌∙◌, ◌&&◌,
}
use prevail_rust.Cfg.Label.{Label}
use prevail_rust.Ir.Isa.{Reg}
use prevail_rust.Ir.Contract.{ArgSingleKind, ArgSingle, Call}
use prevail_rust.Ir.Assertion.{Assertion}
use prevail_rust.Ir.Config.{ProgramInfo}
use prevail_rust.Ir.Assertions.Calls.{single_assertions, singles_loop, assertions_call}

-- Every key and value has a map among the arguments before it.
abbrev has_map : Bool → ArgSingleKind → Bool
has_map seen ArgSingleKind.map_fd = true
has_map seen _ = seen

abbrev needs_map : ArgSingleKind → Bool
needs_map ArgSingleKind.ptr_to_map_key = true
needs_map ArgSingleKind.ptr_to_map_value = true
needs_map _ = false

abbrev pub maps_first : Bool → List ArgSingle → Bool
maps_first seen [] = true
maps_first seen (arg ∷ args) =
    if needs_map arg.kind && not seen then false else maps_first (has_map seen arg.kind) args

abbrev pub is_some {ℓ} : {A : Type ℓ} → Option A → Bool
is_some none = false
is_some (some a) = true

-- One argument panics only where it needs a map and there is none; a map is then seen.
abbrev Step : Option Reg → ArgSingleKind → Option (List Assertion × Option Reg) → Type 0
Step fd kind none = (needs_map kind ≡ true) × (is_some fd ≡ false)
Step fd kind (some (checks, fd')) =
    ((needs_map kind && not (is_some fd)) ≡ false) × (is_some fd' ≡ has_map (is_some fd) kind)

module _ (info : ProgramInfo) (label : Option Label) where
  single-Step :
      (fd : Option Reg) (kind : ArgSingleKind) (or_null : Bool) (reg : Reg)
      → Step fd kind (single_assertions info label fd kind or_null reg)
  unfolding single_assertions
  single-Step none ArgSingleKind.map_fd or_null reg = (refl, refl)
  single-Step none ArgSingleKind.map_fd_programs or_null reg = (refl, refl)
  single-Step none ArgSingleKind.ptr_to_map_key or_null reg = (refl, refl)
  single-Step none ArgSingleKind.ptr_to_map_value or_null reg = (refl, refl)
  single-Step none ArgSingleKind.ptr_to_ctx or_null reg = (refl, refl)
  single-Step none ArgSingleKind.ptr_to_stack or_null reg = (refl, refl)
  single-Step none ArgSingleKind.ptr_to_func or_null reg = (refl, refl)
  single-Step none ArgSingleKind.anything or_null reg = (refl, refl)
  single-Step none ArgSingleKind.ptr_to_socket or_null reg = (refl, refl)
  single-Step none ArgSingleKind.ptr_to_btf_id or_null reg = (refl, refl)
  single-Step none ArgSingleKind.ptr_to_alloc_mem or_null reg = (refl, refl)
  single-Step none ArgSingleKind.ptr_to_spin_lock or_null reg = (refl, refl)
  single-Step none ArgSingleKind.ptr_to_timer or_null reg = (refl, refl)
  single-Step none ArgSingleKind.const_size_or_zero or_null reg = (refl, refl)
  single-Step none ArgSingleKind.ptr_to_writable_long or_null reg = (refl, refl)
  single-Step none ArgSingleKind.ptr_to_writable_int or_null reg = (refl, refl)
  single-Step (some r) ArgSingleKind.map_fd or_null reg = (refl, refl)
  single-Step (some r) ArgSingleKind.map_fd_programs or_null reg = (refl, refl)
  single-Step (some r) ArgSingleKind.ptr_to_map_key or_null reg = (refl, refl)
  single-Step (some r) ArgSingleKind.ptr_to_map_value or_null reg = (refl, refl)
  single-Step (some r) ArgSingleKind.ptr_to_ctx or_null reg = (refl, refl)
  single-Step (some r) ArgSingleKind.ptr_to_stack or_null reg = (refl, refl)
  single-Step (some r) ArgSingleKind.ptr_to_func or_null reg = (refl, refl)
  single-Step (some r) ArgSingleKind.anything or_null reg = (refl, refl)
  single-Step (some r) ArgSingleKind.ptr_to_socket or_null reg = (refl, refl)
  single-Step (some r) ArgSingleKind.ptr_to_btf_id or_null reg = (refl, refl)
  single-Step (some r) ArgSingleKind.ptr_to_alloc_mem or_null reg = (refl, refl)
  single-Step (some r) ArgSingleKind.ptr_to_spin_lock or_null reg = (refl, refl)
  single-Step (some r) ArgSingleKind.ptr_to_timer or_null reg = (refl, refl)
  single-Step (some r) ArgSingleKind.const_size_or_zero or_null reg = (refl, refl)
  single-Step (some r) ArgSingleKind.ptr_to_writable_long or_null reg = (refl, refl)
  single-Step (some r) ArgSingleKind.ptr_to_writable_int or_null reg = (refl, refl)

  singles_loop-some :
      (args : List ArgSingle) (res : List Assertion) (fd : Option Reg)
      → is_some (singles_loop info label args res fd) ≡ maps_first (is_some fd) args
  unfolding singles_loop
  singles_loop-some [] res fd = refl
  singles_loop-some (arg ∷ args) res fd =
      after (single_assertions info label fd arg.kind arg.or_null arg.reg)
        (single-Step fd arg.kind arg.or_null arg.reg)
        (λ checks fd'. singles_loop-some args (res ++ checks) fd')
    where
      after :
          (step : Option (List Assertion × Option Reg))
          → Step fd arg.kind step
          → ((checks : List Assertion) (fd' : Option Reg)
              → is_some (singles_loop info label args (res ++ checks) fd')
                ≡ maps_first (is_some fd') args)
          → is_some (step >>= λ s. singles_loop info label args (res ++ s.0) s.1)
            ≡ maps_first (is_some fd) (arg ∷ args)
      after none s rest = rw (s.0, s.1)
      after (some (checks, fd')) s rest = rw (s.0) (rw (← s.1) (rest checks fd'))

is_some-bind {ℓ κ} :
    {A : Type ℓ} {B : Type κ} (m : Option A) (f : A → B)
    → is_some (m >>= λ a. some (f a)) ≡ is_some m
is_some-bind none f = refl
is_some-bind (some a) f = refl

pub assertions_call-some :
    (ins : Call) (info : ProgramInfo) (label : Option Label)
    → is_some (assertions_call ins info label) ≡ maps_first false ins.contract.singles
unfolding assertions_call
assertions_call-some ins info label =
    is_some-bind (singles_loop info label ins.contract.singles [] none) _
    ∙ singles_loop-some info label ins.contract.singles [] none
