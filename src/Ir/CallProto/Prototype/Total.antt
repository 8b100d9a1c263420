-- ===== src/Ir/CallProto/Prototype/Total.antt =====
-- src/ir/unmarshal.rs: resolving the prototype of a helper never panics, and the registers of the
-- contract are those of the arguments.
use mathlib.Core.Path.{subst}
use prevail_rust.Base.Tests.{
  some-eq, sym, ◌∙◌, ℕ, zero, suc, ◌+◌, ◌≤◌, ◌<◌, ◌≡◌, refl, arith, Option, none, some, List,
  Option-cases, inl, inr, ltb, Bool-cases,
}
use prevail_rust.Base.Int.{ℤ}
use prevail_rust.Ir.Contract.{CallContract, Call}
use prevail_rust.Ir.CallProto.{
  EbpfReturnType, EbpfArgumentType, ArgOutcome, apply_return_type, padded_args, process_arg,
}
use prevail_rust.Ir.CallProto.Slots.{ArgsBelow, Processed, process-Processed, weaken}
use prevail_rust.Ir.CallProto.Prototype.{
  HelperPrototype, EbpfPlatform, continue, walk_args, call_of_prototype, make_call_of,
  make_call_result, make_call, initial_call, mark_unsupported,
}

-- The call is built, and its arguments are among r1 to r5.
abbrev pub Resolved : Option Call → Type 0
Resolved o = (r : Call) × (o ≡ some r) × ArgsBelow 6 r.contract

module _ (a0 a1 a2 a3 a4 : EbpfArgumentType) where
  abbrev args : List EbpfArgumentType
  args = padded_args a0 a1 a2 a3 a4

  slot-Processed :
      (i : ℕ) (c : CallContract)
      → 1 ≤ i
      → i < 6
      → ArgsBelow i c
      → Processed i (process_arg c args i)
  unfolding process_arg padded_args
  slot-Processed zero c h k b = absurd (omega arith)
  slot-Processed (suc zero) c h k b = process-Processed a0 a1 1 c h (λ z e. omega arith) b
  slot-Processed (suc (suc zero)) c h k b = process-Processed a1 a2 2 c h (λ z e. omega arith) b
  slot-Processed (suc (suc (suc zero))) c h k b =
      process-Processed a2 a3 3 c h (λ z e. omega arith) b
  slot-Processed (suc (suc (suc (suc zero)))) c h k b =
      process-Processed a3 a4 4 c h (λ z e. omega arith) b
  slot-Processed (suc (suc (suc (suc (suc zero))))) c h k b =
      process-Processed a4 EbpfArgumentType.dont_care 5 c h (λ z e. cc) b
  slot-Processed (suc (suc (suc (suc (suc (suc i)))))) c h k b = absurd (omega arith)

continue-Resolved :
    (rounds : ℕ → Call → Option Call) (i : ℕ) (res : Call) (step : CallContract × ArgOutcome)
    → i ≤ 6
    → ((j : ℕ) (r : Call) → i < j → j ≤ 6 → ArgsBelow j r.contract → Resolved (rounds j r))
    → i < 6
    → Processed i (some step)
    → Resolved (continue rounds i (record res { contract = step.0 }) step.1)
unfolding continue mark_unsupported
continue-Resolved rounds i res (c, ArgOutcome.single) h more k b =
    more (i + 1) (record res { contract = c }) (omega arith) (omega arith) b
continue-Resolved rounds i res (c, ArgOutcome.pair) h more k b =
    more (i + 2) (record res { contract = c }) (omega arith) b.1 b.0
continue-Resolved rounds i res (c, ArgOutcome.stop) h more k b = (_, refl, weaken i 6 c h b)
continue-Resolved rounds i res (c, ArgOutcome.unavailable) h more k b = (_, refl, weaken i 6 c h b)
continue-Resolved rounds i res (c, ArgOutcome.mismatched_size) h more k b =
    (_, refl, weaken i 6 c h b)

module _ (a0 a1 a2 a3 a4 : EbpfArgumentType) where
  walk_args-Resolved :
      (fuel i : ℕ) (res : Call)
      → 7 ≤ fuel + i
      → 1 ≤ i
      → i ≤ 6
      → ArgsBelow i res.contract
      → Resolved (walk_args fuel (padded_args a0 a1 a2 a3 a4) i res)
  unfolding walk_args
  walk_args-Resolved zero i res f h k b = absurd (omega arith)
  walk_args-Resolved (suc fuel) i res f h k b = elim (Bool-cases (ltb i 6)) [
    | inr done ↦ rw done (res, refl, weaken i 6 res.contract k b)
    | inl more ↦
        let inside : i < 6 = ground arith in
        let processed = slot-Processed a0 a1 a2 a3 a4 i res.contract h inside b in
        let round = λ (j : ℕ) (r : Call) (g : i < j) (l : j ≤ 6) (w : ArgsBelow j r.contract).
          walk_args-Resolved fuel j r (omega arith) (omega arith) l w in
        elim (Option-cases (process_arg res.contract (padded_args a0 a1 a2 a3 a4) i)) [
          | inl e ↦ absurd (rw e at processed)
          | inr (step, e) ↦
              rw (more, e)
                (continue-Resolved (λ j r. walk_args fuel (padded_args a0 a1 a2 a3 a4) j r) i res
                  step k round inside (subst (Processed i) e processed))
        ]
  ]

-- The return type leaves the arguments alone.
abbrev StillBelow : Option CallContract → Type 0
StillBelow none = Unit
StillBelow (some c) = ArgsBelow 1 c

apply_return_type-StillBelow :
    (ret : EbpfReturnType) (c : CallContract) → ArgsBelow 1 c → StillBelow (apply_return_type ret c)
unfolding apply_return_type
apply_return_type-StillBelow EbpfReturnType.integer c b = b
apply_return_type-StillBelow EbpfReturnType.ptr_to_map_value_or_null c b = b
apply_return_type-StillBelow EbpfReturnType.integer_or_no_return_if_succeed c b = b
apply_return_type-StillBelow EbpfReturnType.unsupported c b = tt
apply_return_type-StillBelow EbpfReturnType.ptr_to_sock_common_or_null c b = record {
  singles_below = b.singles_below;
  pairs_below = b.pairs_below;
}
apply_return_type-StillBelow EbpfReturnType.ptr_to_socket_or_null c b = record {
  singles_below = b.singles_below;
  pairs_below = b.pairs_below;
}
apply_return_type-StillBelow EbpfReturnType.ptr_to_tcp_socket_or_null c b = record {
  singles_below = b.singles_below;
  pairs_below = b.pairs_below;
}
apply_return_type-StillBelow EbpfReturnType.ptr_to_alloc_mem_or_null c b = record {
  singles_below = b.singles_below;
  pairs_below = b.pairs_below;
}
apply_return_type-StillBelow EbpfReturnType.ptr_to_btf_id_or_null c b = record {
  singles_below = b.singles_below;
  pairs_below = b.pairs_below;
}
apply_return_type-StillBelow EbpfReturnType.ptr_to_mem_or_btf_id_or_null c b = record {
  singles_below = b.singles_below;
  pairs_below = b.pairs_below;
}
apply_return_type-StillBelow EbpfReturnType.ptr_to_btf_id c b = record {
  singles_below = b.singles_below;
  pairs_below = b.pairs_below;
}
apply_return_type-StillBelow EbpfReturnType.ptr_to_mem_or_btf_id c b = record {
  singles_below = b.singles_below;
  pairs_below = b.pairs_below;
}

call_of_prototype-Resolved :
    (imm : ℤ) (proto : HelperPrototype) (contract : Option CallContract)
    → StillBelow contract
    → Resolved (call_of_prototype imm proto contract)
unfolding call_of_prototype initial_call mark_unsupported
call_of_prototype-Resolved imm proto none b =
    (_, refl, record { singles_below = tt; pairs_below = tt })
call_of_prototype-Resolved imm proto (some contract) b =
    walk_args-Resolved proto.arg0 proto.arg1 proto.arg2 proto.arg3 proto.arg4 6 1
      (record (initial_call imm proto) { contract = contract }) (omega arith) (omega arith)
      (omega arith) b

-- The two outcomes of resolving a helper: an error where there is no prototype, else a call.
abbrev pub Outcome : Option HelperPrototype → Option Call → Type 0
Outcome none result = result ≡ none
Outcome (some proto) result = (call : Call) × (result ≡ some call) × ArgsBelow 6 call.contract

make_call_of-Outcome :
    (imm : ℤ) (found : Option HelperPrototype)
    → (result : Option Call) × (make_call_of imm found ≡ some result) × Outcome found result
unfolding make_call_of initial_call
make_call_of-Outcome imm none = (none, refl, refl)
make_call_of-Outcome imm (some proto) =
    let kept =
      apply_return_type-StillBelow proto.return_type (initial_call imm proto).contract
        (record { singles_below = tt; pairs_below = tt }) in
    let (call, e, b) =
      call_of_prototype-Resolved imm proto
        (apply_return_type proto.return_type (initial_call imm proto).contract) kept in
    (some call, rw e, (call, refl, b))

-- make_call_result does not panic, within at most six rounds of its loop. It is an error if the
-- platform has no prototype, and otherwise a call whose arguments are registers from r1 to r5.
pub make_call_result-Outcome :
    (imm : ℤ) (platform : EbpfPlatform)
    → (result : Option Call) × (make_call_result imm platform ≡ some result)
      × Outcome (platform.try_get_helper_prototype imm) result
unfolding make_call_result
make_call_result-Outcome imm platform =
    make_call_of-Outcome imm (platform.try_get_helper_prototype imm)

found-ArgsBelow :
    (found : Option HelperPrototype) (result : Option Call) (call : Call)
    → Outcome found result
    → result ≡ some call
    → ArgsBelow 6 call.contract
found-ArgsBelow none result call o h = cc
found-ArgsBelow (some proto) result call o h =
    let (built, e, b) = o in subst (λ (c : Call). ArgsBelow 6 c.contract) (some-eq (sym e ∙ h)) b

pub make_call-ArgsBelow :
    (imm : ℤ) (platform : EbpfPlatform) (call : Call)
    → make_call imm platform ≡ some call
    → ArgsBelow 6 call.contract
unfolding make_call
make_call-ArgsBelow imm platform call h =
    let (result, e, o) = make_call_result-Outcome imm platform in
    found-ArgsBelow (platform.try_get_helper_prototype imm) result call o (rw e at h)

found-some :
    (found : Option HelperPrototype) (result : Option Call) (proto : HelperPrototype)
    → Outcome found result
    → found ≡ some proto
    → (call : Call) × (result ≡ some call)
found-some none result proto o h = cc
found-some (some p) result proto o h = let (call, e, b) = o in (call, e)

-- A helper with a prototype is resolved without a panic.
pub make_call-some :
    (imm : ℤ) (platform : EbpfPlatform) (proto : HelperPrototype)
    → platform.try_get_helper_prototype imm ≡ some proto
    → (call : Call) × (make_call imm platform ≡ some call)
unfolding make_call
make_call-some imm platform proto h =
    let (result, e, o) = make_call_result-Outcome imm platform in
    let (call, same) = found-some (platform.try_get_helper_prototype imm) result proto o h in
    (call, rw e same)
