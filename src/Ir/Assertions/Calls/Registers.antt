-- ===== src/Ir/Assertions/Calls/Registers.antt =====
-- src/ir/assertions.rs: the assertions of a call name the registers of its arguments only.
use mathlib.Core.Path.{subst}
use Prim.Native.Nat.{bit_and, ◌^◌}
use prevail_rust.Base.Tests.{
  some-eq, ℕ, zero, suc, ◌+◌, ◌≤◌, ◌≡◌, arith, Option, none, some, Bool, true, false, not, List, [],
  ◌∷◌, ◌++◌, ◌==◌, ◌>>=◌, if◌then◌else◌, >>=-eq-some,
}
use prevail_rust.Base.Int.{ℤ}
use prevail_rust.Cfg.Label.{Label}
use prevail_rust.Ir.Isa.{Reg}
use prevail_rust.Ir.Syntax.{Value}
use prevail_rust.Ir.Contract.{ArgSingleKind, ArgSingle, ArgPair, Call}
use prevail_rust.Ir.CallProto.Slots.{ArgsBelow, SinglesBelow, PairsBelow}
use prevail_rust.Ir.CallProto.Prototype.{EbpfPlatform, make_call}
use prevail_rust.Ir.CallProto.Prototype.Total.{make_call-ArgsBelow}
use prevail_rust.Ir.Assertion.{Assertion}
use prevail_rust.Ir.Config.{ProgramInfo}
use prevail_rust.Ir.Assertions.Common.{zero_offset_ctx, number}
use prevail_rust.Ir.Assertions.Calls.{
  single_assertions, singles_loop, map_type_assertions, pairs_assertions, pair_assertions,
  zero_args_assertions, assertions_call,
}
use prevail_rust.Ir.Assertions.Calls.Arguments.{is_some, maps_first, assertions_call-some}

-- r1 to r5.
abbrev IsArg : Reg → Type 0
IsArg r = (1 ≤ r) × (r ≤ 5)

abbrev IsArgWidth : Value → Type 0
IsArgWidth (Value.imm v) = Unit
IsArgWidth (Value.reg r) = IsArg r

-- The registers that an assertion names are arguments.
abbrev pub NamesArgs : Assertion → Type 0
NamesArgs (Assertion.comparable r s z) = IsArg r × IsArg s
NamesArgs (Assertion.addable p n) = IsArg p × IsArg n
NamesArgs (Assertion.valid_divisor r s w) = IsArg r
NamesArgs (Assertion.valid_access a) = IsArg a.reg × IsArgWidth a.width
NamesArgs (Assertion.valid_store m v) = IsArg m × IsArg v
NamesArgs (Assertion.valid_size r z) = IsArg r
NamesArgs (Assertion.valid_map_key_value a m k) = IsArg a × IsArg m
NamesArgs (Assertion.valid_callback_target r) = IsArg r
NamesArgs (Assertion.type_constraint r g) = IsArg r
NamesArgs (Assertion.func_constraint r) = IsArg r
NamesArgs (Assertion.zero_ctx_offset r z) = IsArg r
NamesArgs (Assertion.bounded_loop_count l) = Unit
NamesArgs (Assertion.valid_arg_zero r) = IsArg r
NamesArgs (Assertion.valid_map_type r t n) = IsArg r

abbrev pub AllNameArgs : List Assertion → Type 0
AllNameArgs [] = Unit
AllNameArgs (c ∷ cs) = NamesArgs c × AllNameArgs cs

append-AllNameArgs :
    (xs ys : List Assertion) → AllNameArgs xs → AllNameArgs ys → AllNameArgs (xs ++ ys)
append-AllNameArgs [] ys h k = k
append-AllNameArgs (x ∷ xs) ys h k = (h.0, append-AllNameArgs xs ys h.1 k)

abbrev IsArgMap : Option Reg → Type 0
IsArgMap none = Unit
IsArgMap (some r) = IsArg r

abbrev Named : Option (List Assertion × Option Reg) → Type 0
Named none = Unit
Named (some (checks, fd)) = AllNameArgs checks × IsArgMap fd

module _ (info : ProgramInfo) (label : Option Label) where
  single-Named :
      (fd : Option Reg) (kind : ArgSingleKind) (or_null : Bool) (reg : Reg)
      → IsArgMap fd
      → IsArg reg
      → Named (single_assertions info label fd kind or_null reg)
  unfolding single_assertions zero_offset_ctx
  single-Named fd ArgSingleKind.map_fd or_null reg m r = ((r, tt), r)
  single-Named fd ArgSingleKind.map_fd_programs or_null reg m r = ((r, tt), m)
  single-Named none ArgSingleKind.ptr_to_map_key or_null reg m r = tt
  single-Named (some fd) ArgSingleKind.ptr_to_map_key or_null reg m r = ((r, ((r, m), tt)), m)
  single-Named none ArgSingleKind.ptr_to_map_value or_null reg m r = tt
  single-Named (some fd) ArgSingleKind.ptr_to_map_value or_null reg m r = ((r, ((r, m), tt)), m)
  single-Named fd ArgSingleKind.ptr_to_ctx or_null reg m r = ((r, (r, tt)), m)
  single-Named fd ArgSingleKind.ptr_to_stack or_null reg m r = ((r, tt), m)
  single-Named fd ArgSingleKind.ptr_to_func or_null reg m r = ((r, (r, tt)), m)
  single-Named fd ArgSingleKind.anything or_null reg m r =
      (numbers (not info.program_type.is_privileged), m)
    where
      numbers : (b : Bool) → AllNameArgs (if b then number reg ∷ [] else [])
      numbers true = (r, tt)
      numbers false = tt
  single-Named fd ArgSingleKind.ptr_to_socket or_null reg m r = ((r, tt), m)
  single-Named fd ArgSingleKind.ptr_to_btf_id or_null reg m r = ((r, tt), m)
  single-Named fd ArgSingleKind.ptr_to_alloc_mem or_null reg m r = ((r, tt), m)
  single-Named fd ArgSingleKind.ptr_to_spin_lock or_null reg m r = ((r, tt), m)
  single-Named fd ArgSingleKind.ptr_to_timer or_null reg m r = ((r, tt), m)
  single-Named fd ArgSingleKind.const_size_or_zero or_null reg m r = ((r, (r, tt)), m)
  single-Named fd ArgSingleKind.ptr_to_writable_long or_null reg m r = ((r, ((r, tt), tt)), m)
  single-Named fd ArgSingleKind.ptr_to_writable_int or_null reg m r = ((r, ((r, tt), tt)), m)

  singles_loop-Named :
      (args : List ArgSingle) (res : List Assertion) (fd : Option Reg)
      → SinglesBelow 6 args
      → AllNameArgs res
      → IsArgMap fd
      → Named (singles_loop info label args res fd)
  unfolding singles_loop
  singles_loop-Named [] res fd b h m = (h, m)
  singles_loop-Named (arg ∷ args) res fd b h m =
      after (single_assertions info label fd arg.kind arg.or_null arg.reg)
        (single-Named fd arg.kind arg.or_null arg.reg m (b.0, omega (arith, b.1)))
        (λ checks fd' h' m'.
          singles_loop-Named args (res ++ checks) fd' b.2 (append-AllNameArgs res checks h h') m')
    where
      after :
          (step : Option (List Assertion × Option Reg))
          → Named step
          → ((checks : List Assertion) (fd' : Option Reg)
              → AllNameArgs checks
              → IsArgMap fd'
              → Named (singles_loop info label args (res ++ checks) fd'))
          → Named (step >>= λ s. singles_loop info label args (res ++ s.0) s.1)
      after none s rest = tt
      after (some (checks, fd')) s rest = rest checks fd' s.0 s.1

pairs-AllNameArgs :
    (label : Option Label) (args : List ArgPair)
    → PairsBelow 6 args
    → AllNameArgs (pairs_assertions label args)
unfolding pairs_assertions pair_assertions
pairs-AllNameArgs label [] b = tt
pairs-AllNameArgs label (arg ∷ args) b =
    let mem : IsArg arg.mem = (b.0, omega (arith, b.1, b.2)) in
    let size : IsArg arg.size = (omega (arith, b.1), omega (arith, b.2)) in
    (size, (size, (mem, ((mem, size), pairs-AllNameArgs label args b.3))))

zero_args-AllNameArgs :
    (rounds i mask : ℕ) → rounds + i ≤ 5 → AllNameArgs (zero_args_assertions rounds i mask)
unfolding zero_args_assertions
zero_args-AllNameArgs zero i mask h = tt
zero_args-AllNameArgs (suc rounds) i mask h =
    append-AllNameArgs
      (if not (bit_and mask (2 ^ i) == 0)
        then number (i + 1) ∷ Assertion.valid_arg_zero (i + 1) ∷ []
        else [])
      _ (here (not (bit_and mask (2 ^ i) == 0)))
      (zero_args-AllNameArgs rounds (i + 1) mask (omega arith))
  where
    here :
        (b : Bool)
        → AllNameArgs (if b then number (i + 1) ∷ Assertion.valid_arg_zero (i + 1) ∷ [] else [])
    here true = ((omega arith, omega arith), ((omega arith, omega arith), tt))
    here false = tt

map_type-AllNameArgs :
    (fd : Option Reg) (ins : Call) → IsArgMap fd → AllNameArgs (map_type_assertions fd ins)
unfolding map_type_assertions
map_type-AllNameArgs none ins m = tt
map_type-AllNameArgs (some r) ins m = here (not (ins.contract.allowed_map_types == 0))
  where
    here :
        (b : Bool)
        → AllNameArgs (
            if b
            then Assertion.valid_map_type r ins.contract.allowed_map_types ins.name ∷ []
            else [])
    here true = (m, tt)
    here false = tt

gathered-AllNameArgs :
    (ins : Call) (label : Option Label) (step : List Assertion × Option Reg)
    → PairsBelow 6 ins.contract.pairs
    → Named (some step)
    → AllNameArgs (
        step.0
        ++ (map_type_assertions step.1 ins
            ++ (pairs_assertions label ins.contract.pairs
                ++ zero_args_assertions 5 0 ins.contract.zero_args_mask)))
gathered-AllNameArgs ins label (checks, fd) b n = append-AllNameArgs checks _ n.0 (
    append-AllNameArgs (map_type_assertions fd ins) _ (map_type-AllNameArgs fd ins n.1) (
      append-AllNameArgs (pairs_assertions label ins.contract.pairs) _
        (pairs-AllNameArgs label ins.contract.pairs b)
        (zero_args-AllNameArgs 5 0 ins.contract.zero_args_mask (omega arith))))

assertions_call-AllNameArgs :
    (ins : Call) (info : ProgramInfo) (label : Option Label) (checks : List Assertion)
    → ArgsBelow 6 ins.contract
    → assertions_call ins info label ≡ some checks
    → AllNameArgs checks
unfolding assertions_call
assertions_call-AllNameArgs ins info label checks b e =
    let (step, found, same) =
      >>=-eq-some (singles_loop info label ins.contract.singles [] none) _ e in
    subst AllNameArgs (some-eq same) (
      gathered-AllNameArgs ins label step b.pairs_below (
        subst Named found
          (singles_loop-Named info label ins.contract.singles [] none b.singles_below tt tt)))

-- For a call that make_call returns, the extraction of its assertions panics exactly if a key or
-- a value of a map comes before every map argument, and the assertions that it gives name only
-- r1 to r5.
pub make_call-assertions_call :
    (imm : ℤ) (platform : EbpfPlatform) (call : Call) (info : ProgramInfo) (label : Option Label)
    → make_call imm platform ≡ some call
    → (is_some (assertions_call call info label) ≡ maps_first false call.contract.singles)
      × ((checks : List Assertion)
          → assertions_call call info label ≡ some checks
          → AllNameArgs checks)
make_call-assertions_call imm platform call info label h = (
  assertions_call-some call info label,
  λ checks e.
      assertions_call-AllNameArgs call info label checks (make_call-ArgsBelow imm platform call h)
        e,
)
