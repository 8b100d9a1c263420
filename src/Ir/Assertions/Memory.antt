-- ===== src/Ir/Assertions/Memory.antt =====
-- src/ir/assertions.rs: no load or store goes unchecked.
use prevail_rust.Base.Tests.{
  ℕ, ◌-◌, ◌≤◌, ◌^◌, ◌≡◌, ◌⊎◌, inl, inr, refl, arith, Option, none, some, Bool, true, false, List,
  [], ◌∷◌, ◌==◌, if◌then◌else◌, Bool-cases, ==_iff, ◌||◌, or-false, ltb-false→le, sym, ◌*◌,
}
use prevail_rust.Base.Int.{ℤ, pos, negsuc, ltb_ℤ, neg_ℤ, ◌+ℤ◌, ◌≤ℤ◌, int_laws}
use prevail_rust.Cfg.Label.{Label}
use prevail_rust.Ir.Isa.{AccessSize, access_size_bytes, r10_stack_pointer}
use prevail_rust.Ir.Syntax.{Mem}
use prevail_rust.Ir.Assertion.{Assertion}
use prevail_rust.Ir.Config.{i32_checked, EbpfRuntimeConfig, ProgramInfo, validate}
use prevail_rust.Ir.Assertions.{assertions_mem, mem_access, is_off_stack}

abbrev pub Has : Assertion → List Assertion → Type 0
Has a [] = ⊥
Has a (b ∷ bs) = (a ≡ b) ⊎ Has a bs

-- The bytes from the offset on, relative to the top of the stack frame, lie in the frame.
pub record IsInFrame (stack_size offset : ℤ) (width : ℕ) : Type 0 where
  pub above_bottom : neg_ℤ stack_size ≤ℤ offset
  pub below_top : offset +ℤ pos width ≤ℤ pos 0

bytes-le : (w : AccessSize) → access_size_bytes w ≤ 8
unfolding access_size_bytes
bytes-le AccessSize.byte = omega arith
bytes-le AccessSize.half = omega arith
bytes-le AccessSize.word = omega arith
bytes-le AccessSize.dword = omega arith

stack_size_bounds :
    (c : EbpfRuntimeConfig)
    → validate c ≡ none
    → (pos 1 ≤ℤ c.subprogram_stack_size) × (c.subprogram_stack_size ≤ℤ pos (1024 * 1024))
unfolding validate
stack_size_bounds c h = ground arith

i32_checked-some :
    (n : ℤ) → negsuc (2 ^ 31 - 1) ≤ℤ n → n ≤ℤ pos (2 ^ 31 - 1) → i32_checked n ≡ some n
i32_checked-some n h k = ground arith

join_tests : (t u : Bool) → (if t then some true else some u) ≡ some (t || u)
join_tests true u = refl
join_tests false u = refl

-- Within these ranges the test does not overflow.
is_off_stack_lem :
    (offset : ℤ) (width : ℕ) (size : ℤ)
    → pos 1 ≤ℤ size
    → size ≤ℤ pos (1024 * 1024)
    → negsuc (2 ^ 15 - 1) ≤ℤ offset
    → offset ≤ℤ pos (2 ^ 15 - 1)
    → width ≤ 8
    → is_off_stack offset width size
      ≡ some (ltb_ℤ offset (neg_ℤ size) || ltb_ℤ (pos 0) (offset +ℤ pos width))
unfolding is_off_stack
is_off_stack_lem offset width size h k p q w =
    rw
      (
        i32_checked-some (neg_ℤ size) (omega int_laws) (omega int_laws),
        i32_checked-some (offset +ℤ pos width) (omega int_laws) (omega int_laws),
      )
      (join_tests (ltb_ℤ offset (neg_ℤ size)) (ltb_ℤ (pos 0) (offset +ℤ pos width)))

-- The access is checked, or it goes through r10 and stays in the frame.
abbrev pub IsChecked : Mem → EbpfRuntimeConfig → Option Label → List Assertion → Type 0
IsChecked ins runtime label checks =
    Has (mem_access label ins) checks
    ⊎ ((ins.access.basereg ≡ r10_stack_pointer)
        × IsInFrame runtime.subprogram_stack_size ins.access.offset
            (access_size_bytes ins.access.width))

stack-IsChecked :
    (ins : Mem) (runtime : EbpfRuntimeConfig) (label : Option Label) (off : Bool)
    → ins.access.basereg ≡ r10_stack_pointer
    → off ≡ (
        ltb_ℤ ins.access.offset (neg_ℤ runtime.subprogram_stack_size)
        || ltb_ℤ (pos 0) (ins.access.offset +ℤ pos (access_size_bytes ins.access.width)))
    → IsChecked ins runtime label (if off then mem_access label ins ∷ [] else [])
stack-IsChecked ins runtime label true base e = inl (inl refl)
stack-IsChecked ins runtime label false base e =
    let (low, high) = or-false _ _ (sym e) in
    inr (base, record { above_bottom = ltb-false→le _ _ low; below_top = ltb-false→le _ _ high })

-- For valid options and an offset that is an i16, the extraction of the assertions of a load or
-- a store does not panic. The assertion of the access is one of them, or the access goes through
-- r10 and its bytes lie in the stack frame.
pub assertions_mem-IsChecked :
    (ins : Mem) (info : ProgramInfo) (runtime : EbpfRuntimeConfig) (label : Option Label)
    → validate runtime ≡ none
    → negsuc (2 ^ 15 - 1) ≤ℤ ins.access.offset
    → ins.access.offset ≤ℤ pos (2 ^ 15 - 1)
    → (checks : List Assertion) × (assertions_mem ins info runtime label ≡ some checks)
      × IsChecked ins runtime label checks
unfolding assertions_mem
assertions_mem-IsChecked ins info runtime label valid low high =
    elim (Bool-cases (ins.access.basereg == r10_stack_pointer)) [
      | inr other ↦ rw other (_, refl, inl (inr (inl refl)))
      | inl stack ↦
          let (h, k) = stack_size_bounds runtime valid in
          let e =
            is_off_stack_lem ins.access.offset (access_size_bytes ins.access.width)
              runtime.subprogram_stack_size h k low high (bytes-le ins.access.width) in
          rw (stack, e) (_, refl, stack-IsChecked ins runtime label _ ((==_iff _ _).0 stack) refl)
    ]
