-- ===== src/Ir/CallProto/Slots.antt =====
-- src/ir/call_proto.rs: the registers that the contract of a call names.
use prevail_rust.Base.Tests.{
  ℕ, ◌+◌, ◌≤◌, ◌<◌, ◌≡◌, refl, arith, Option, none, some, Bool, true, false, List, [], ◌∷◌, ◌++◌,
}
use prevail_rust.Ir.Contract.{ArgSingle, ArgPair, ArgSingleKind, CallContract}
use prevail_rust.Ir.CallProto.{
  EbpfArgumentType, ArgOutcome, process, push_single, push_pair, size_of,
}

-- The arguments of a contract are registers from r1 on, below a bound; a size follows its pointer.
abbrev pub SinglesBelow : ℕ → List ArgSingle → Type 0
SinglesBelow n [] = Unit
SinglesBelow n (s ∷ ss) = (1 ≤ s.reg) × (s.reg < n) × SinglesBelow n ss

abbrev pub PairsBelow : ℕ → List ArgPair → Type 0
PairsBelow n [] = Unit
PairsBelow n (p ∷ ps) = (1 ≤ p.mem) × (p.size ≡ p.mem + 1) × (p.size < n) × PairsBelow n ps

pub record ArgsBelow (n : ℕ) (c : CallContract) : Type 0 where
  pub singles_below : SinglesBelow n c.singles
  pub pairs_below : PairsBelow n c.pairs

singles-weaken : (n m : ℕ) (ss : List ArgSingle) → n ≤ m → SinglesBelow n ss → SinglesBelow m ss
singles-weaken n m [] h b = tt
singles-weaken n m (s ∷ ss) h b = (b.0, omega (arith, b.1), singles-weaken n m ss h b.2)

pairs-weaken : (n m : ℕ) (ps : List ArgPair) → n ≤ m → PairsBelow n ps → PairsBelow m ps
pairs-weaken n m [] h b = tt
pairs-weaken n m (p ∷ ps) h b = (b.0, b.1, omega (arith, b.2), pairs-weaken n m ps h b.3)

pub weaken : (n m : ℕ) (c : CallContract) → n ≤ m → ArgsBelow n c → ArgsBelow m c
weaken n m c h b = record {
  singles_below = singles-weaken n m c.singles h b.singles_below;
  pairs_below = pairs-weaken n m c.pairs h b.pairs_below;
}

singles-push :
    (n : ℕ) (ss : List ArgSingle) (s : ArgSingle)
    → 1 ≤ s.reg
    → s.reg < n
    → SinglesBelow n ss
    → SinglesBelow n (ss ++ (s ∷ []))
singles-push n [] s h k b = (h, k, tt)
singles-push n (t ∷ ss) s h k b = (b.0, b.1, singles-push n ss s h k b.2)

pairs-push :
    (n : ℕ) (ps : List ArgPair) (p : ArgPair)
    → 1 ≤ p.mem
    → p.size ≡ p.mem + 1
    → p.size < n
    → PairsBelow n ps
    → PairsBelow n (ps ++ (p ∷ []))
pairs-push n [] p h e k b = (h, e, k, tt)
pairs-push n (q ∷ ps) p h e k b = (b.0, b.1, b.2, pairs-push n ps p h e k b.3)

pub push_single-ArgsBelow :
    (kind : ArgSingleKind) (or_null : Bool) (i : ℕ) (c : CallContract)
    → 1 ≤ i
    → ArgsBelow i c
    → ArgsBelow (i + 1) (push_single kind or_null i c)
push_single-ArgsBelow kind or_null i c h b =
    let w = weaken i (i + 1) c (omega arith) b in
    record {
      singles_below = singles-push (i + 1) c.singles _ h (omega arith) w.singles_below;
      pairs_below = w.pairs_below;
    }

-- What one round of the loop leaves: no panic, and the arguments below the next slot.
abbrev pub Processed : ℕ → Option (CallContract × ArgOutcome) → Type 0
Processed i none = ⊥
Processed i (some (c, ArgOutcome.single)) = ArgsBelow (i + 1) c
Processed i (some (c, ArgOutcome.pair)) = ArgsBelow (i + 2) c × (i + 2 ≤ 6)
Processed i (some (c, ArgOutcome.stop)) = ArgsBelow i c
Processed i (some (c, ArgOutcome.unavailable)) = ArgsBelow i c
Processed i (some (c, ArgOutcome.mismatched_size)) = ArgsBelow i c

-- Only a size makes a pair, and none follows the fifth argument.
pair-Processed :
    (arg : EbpfArgumentType) (or_null : Bool) (i : ℕ) (size : Option Bool) (c : CallContract)
    → 1 ≤ i
    → ((b : Bool) → size ≡ some b → i + 2 ≤ 6)
    → ArgsBelow i c
    → Processed i (some (push_pair arg or_null i size c))
unfolding push_pair
pair-Processed arg or_null i none c h last b = b
pair-Processed arg or_null i (some z) c h last b =
    let w = weaken i (i + 2) c (omega arith) b in
    (
      record {
        singles_below = w.singles_below;
        pairs_below = pairs-push (i + 2) c.pairs _ h refl (omega arith) w.pairs_below;
      },
      last z refl,
    )

pub process-Processed :
    (arg next : EbpfArgumentType) (i : ℕ) (c : CallContract)
    → 1 ≤ i
    → ((b : Bool) → size_of next ≡ some b → i + 2 ≤ 6)
    → ArgsBelow i c
    → Processed i (process arg (some next) i c)
unfolding process
process-Processed EbpfArgumentType.dont_care next i c h last b = b
process-Processed EbpfArgumentType.anything next i c h last b = push_single-ArgsBelow _ _ i c h b
process-Processed EbpfArgumentType.const_size next i c h last b = b
process-Processed EbpfArgumentType.const_size_or_zero next i c h last b = b
process-Processed EbpfArgumentType.ptr_to_ctx next i c h last b = push_single-ArgsBelow _ _ i c h b
process-Processed EbpfArgumentType.ptr_to_map next i c h last b = push_single-ArgsBelow _ _ i c h b
process-Processed EbpfArgumentType.ptr_to_map_of_programs next i c h last b =
    push_single-ArgsBelow _ _ i c h b
process-Processed EbpfArgumentType.ptr_to_map_key next i c h last b =
    push_single-ArgsBelow _ _ i c h b
process-Processed EbpfArgumentType.ptr_to_map_value next i c h last b =
    push_single-ArgsBelow _ _ i c h b
process-Processed EbpfArgumentType.ptr_to_readable_mem next i c h last b =
    pair-Processed EbpfArgumentType.ptr_to_readable_mem false i (size_of next) c h last b
process-Processed EbpfArgumentType.ptr_to_readable_mem_or_null next i c h last b =
    pair-Processed EbpfArgumentType.ptr_to_readable_mem_or_null true i (size_of next) c h last b
process-Processed EbpfArgumentType.ptr_to_writable_mem next i c h last b =
    pair-Processed EbpfArgumentType.ptr_to_writable_mem false i (size_of next) c h last b
process-Processed EbpfArgumentType.ptr_to_stack next i c h last b =
    push_single-ArgsBelow _ _ i c h b
process-Processed EbpfArgumentType.ptr_to_stack_or_null next i c h last b =
    push_single-ArgsBelow _ _ i c h b
process-Processed EbpfArgumentType.ptr_to_ctx_or_null next i c h last b =
    push_single-ArgsBelow _ _ i c h b
process-Processed EbpfArgumentType.ptr_to_writable_mem_or_null next i c h last b =
    pair-Processed EbpfArgumentType.ptr_to_writable_mem_or_null true i (size_of next) c h last b
process-Processed EbpfArgumentType.ptr_to_btf_id_sock_common next i c h last b =
    push_single-ArgsBelow _ _ i c h b
process-Processed EbpfArgumentType.ptr_to_spin_lock next i c h last b =
    push_single-ArgsBelow _ _ i c h b
process-Processed EbpfArgumentType.ptr_to_sock_common next i c h last b =
    push_single-ArgsBelow _ _ i c h b
process-Processed EbpfArgumentType.ptr_to_btf_id next i c h last b =
    push_single-ArgsBelow _ _ i c h b
process-Processed EbpfArgumentType.ptr_to_long next i c h last b = push_single-ArgsBelow _ _ i c h b
process-Processed EbpfArgumentType.ptr_to_int next i c h last b = push_single-ArgsBelow _ _ i c h b
process-Processed EbpfArgumentType.ptr_to_const_str next i c h last b = b
process-Processed EbpfArgumentType.ptr_to_func next i c h last b = push_single-ArgsBelow _ _ i c h b
process-Processed EbpfArgumentType.const_alloc_size_or_zero next i c h last b =
    push_single-ArgsBelow _ _ i (record c { alloc_size_reg = some i }) h
      (record { singles_below = b.singles_below; pairs_below = b.pairs_below })
process-Processed EbpfArgumentType.ptr_to_alloc_mem next i c h last b =
    push_single-ArgsBelow _ _ i c h b
process-Processed EbpfArgumentType.ptr_to_timer next i c h last b =
    push_single-ArgsBelow _ _ i c h b
process-Processed EbpfArgumentType.ptr_to_percpu_btf_id next i c h last b =
    push_single-ArgsBelow _ _ i c h b
process-Processed EbpfArgumentType.ptr_to_readonly_mem next i c h last b =
    pair-Processed EbpfArgumentType.ptr_to_readonly_mem false i (size_of next) c h last b
process-Processed EbpfArgumentType.ptr_to_readonly_mem_or_null next i c h last b =
    pair-Processed EbpfArgumentType.ptr_to_readonly_mem_or_null true i (size_of next) c h last b
process-Processed EbpfArgumentType.ptr_to_uninit_map_value next i c h last b =
    push_single-ArgsBelow _ _ i c h b
process-Processed EbpfArgumentType.const_ptr_to_map next i c h last b =
    push_single-ArgsBelow _ _ i c h b
process-Processed EbpfArgumentType.unsupported next i c h last b = b
