-- ===== src/Ir/Unmarshal/Merge/Meaning.antt =====
-- src/ir/unmarshal.rs: what the merge of two shifts means for the registers. The meaning of the
-- operations is that of the instruction set: registers are 64-bit words.
use mathlib.Core.Path.{subst}
use prevail_rust.Base.Tests.{
  some-eq, sym, ap, ◌∙◌, ℕ, ◌+◌, ◌-◌, ◌*◌, ◌/◌, ◌%◌, ◌^◌, ◌≡◌, ◌<◌, refl, arith, Option, none, some,
  Bool, true, false, ltb, ◌==◌, if◌then◌else◌, ◌&&◌, and-true, Bool-cases, inl, inr, ==_iff,
}
use prevail_rust.Ir.Isa.{Reg}
use prevail_rust.Ir.Syntax.{BinOp, Bin, Value}
use prevail_rust.Ir.Unmarshal.Merge.{is_half_shift, merge_shifts, merged, is_imm32}

abbrev pub Registers : Type 0
Registers = Reg → ℕ

abbrev pub IsWord : ℕ → Type 0
IsWord n = n < 2 ^ 64

-- A word with the sign of the low half in the high half.
abbrev pub extend_half : ℕ → ℕ
extend_half n = if ltb (n % 2 ^ 32) (2 ^ 31) then n % 2 ^ 32 else n % 2 ^ 32 + (2 ^ 64 - 2 ^ 32)

-- The arithmetic shift of a word: the integer that it stands for, divided by a power of two and
-- rounded down.
abbrev pub arsh : ℕ → ℕ → ℕ
arsh n k = if ltb n (2 ^ 63) then n / 2 ^ k else 2 ^ 64 - 1 - (2 ^ 64 - 1 - n) / 2 ^ k

abbrev operand : Registers → Value → ℕ
operand s (Value.imm n) = n
operand s (Value.reg r) = s r

-- The value of the five operations that the merge reads and writes; the others have none here.
abbrev pub value_of : BinOp → Bool → ℕ → ℕ → Option ℕ
value_of BinOp.lsh true x n = some (x * 2 ^ (n % 64) % 2 ^ 64)
value_of BinOp.rsh true x n = some (x / 2 ^ (n % 64))
value_of BinOp.arsh true x n = some (arsh x (n % 64))
value_of BinOp.mov false x n = some (n % 2 ^ 32)
value_of BinOp.movsx32 true x n = some (extend_half n)
value_of op is64 x n = none

abbrev write : Registers → Reg → ℕ → Registers
write s r v q = if q == r then v else s q

abbrev finish : Registers → Reg → Option ℕ → Option Registers
finish s r none = none
finish s r (some v) = some (write s r v)

abbrev pub execute : Bin → Registers → Option Registers
execute b s = finish s b.dst (value_of b.op b.is64 (s b.dst) (operand s b.v))

low_half : (x : ℕ) → IsWord x → x * 2 ^ 32 % 2 ^ 64 / 2 ^ 32 ≡ x % 2 ^ 32
low_half x h = omega arith

signed_half : (x : ℕ) → IsWord x → arsh (x * 2 ^ 32 % 2 ^ 64) 32 ≡ extend_half x
signed_half x h = ground arith

-- Both ways end, and every register has the same value after the two instructions as after the one.
abbrev pub Agree : Bin → Bin → Bin → Registers → Type 0
Agree first second one s =
    (s1 s2 s3 : Registers) × (execute first s ≡ some s1)
    × (execute second s1 ≡ some s2)
    × (execute one s ≡ some s3)
    × ((q : Reg) → s2 q ≡ s3 q)

abbrev half_shift : Reg → Bool → Bin
half_shift d l = record { op = BinOp.lsh; dst = d; v = Value.imm 32; is64 = true; lddw = l }

-- The destination is written twice on the one way and once on the other.
written_twice :
    (s : Registers) (d : Reg) (u v : ℕ) (q : Reg) → write (write s d u) d v q ≡ write s d v q
written_twice s d u v q = ground arith

read_back : (s : Registers) (d : Reg) (u : ℕ) → write s d u d ≡ u
read_back s d u = ground arith

second_shift-Agree :
    (op : BinOp) (d : Reg) (l l' : Bool) (m : Bin) (s : Registers)
    → IsWord (s d)
    → merged (half_shift d l) op ≡ some m
    → Agree
        (half_shift d l)
        (record { op = op; dst = d; v = Value.imm 32; is64 = true; lddw = l' })
        m
        s
unfolding merged
second_shift-Agree BinOp.rsh d l l' m s h e =
    subst
      (λ (m : Bin).
        Agree (half_shift d l)
          (record { op = BinOp.rsh; dst = d; v = Value.imm 32; is64 = true; lddw = l' }) m s)
      (some-eq e)
      (
        _,
        _,
        _,
        refl,
        refl,
        refl,
        λ q.
            rw (read_back s d (s d * 2 ^ 32 % 2 ^ 64), low_half (s d) h)
              (written_twice s d (s d * 2 ^ 32 % 2 ^ 64) (s d % 2 ^ 32) q),
      )
second_shift-Agree BinOp.arsh d l l' m s h e =
    subst
      (λ (m : Bin).
        Agree (half_shift d l)
          (record { op = BinOp.arsh; dst = d; v = Value.imm 32; is64 = true; lddw = l' }) m s)
      (some-eq e)
      (
        _,
        _,
        _,
        refl,
        refl,
        refl,
        λ q. rw (read_back s d (s d * 2 ^ 32 % 2 ^ 64)) (
            ap (λ v. write (write s d (s d * 2 ^ 32 % 2 ^ 64)) d v q) (signed_half (s d) h)
            ∙ written_twice s d (s d * 2 ^ 32 % 2 ^ 64) (extend_half (s d)) q),
      )
second_shift-Agree _ d l l' m s h e = cc

half_shift-eq :
    (op : BinOp) (d : Reg) (v : Value) (w l : Bool)
    → is_half_shift (record { op = op; dst = d; v = v; is64 = w; lddw = l }) ≡ true
    → record { op = op; dst = d; v = v; is64 = w; lddw = l } ≡ half_shift d l
unfolding is_half_shift
half_shift-eq BinOp.lsh d (Value.imm n) true l h =
    ap (λ (k : ℕ). record { op = BinOp.lsh; dst = d; v = Value.imm k; is64 = true; lddw = l })
      ((==_iff n 32).0 (and-true _ _ h).0)
half_shift-eq BinOp.lsh d (Value.imm n) false l h = let never = (and-true (n == 32) false h).1 in cc
half_shift-eq BinOp.lsh d (Value.reg r) w l h = cc
half_shift-eq _ d v w l h = cc

-- The second shift is by half a register too, of the same one.
abbrev same_shift : Reg → Reg → Value → Bool → Bool
same_shift d e v w = (e == d) && is_imm32 v && w

abbrev by_half : BinOp → Reg → Bool → Bin
by_half op d l = record { op = op; dst = d; v = Value.imm 32; is64 = true; lddw = l }

abbrev bin_of : BinOp → Reg → Value → Bool → Bool → Bin
bin_of op d v w l = record { op = op; dst = d; v = v; is64 = w; lddw = l }

second-eq :
    (op : BinOp) (d e : Reg) (v : Value) (w l : Bool)
    → same_shift d e v w ≡ true
    → bin_of op e v w l ≡ by_half op d l
second-eq op d e (Value.imm n) true l h =
    let (front, _) = and-true _ _ h in
    let (same, half) = and-true _ _ front in
    ap (λ (x : Reg). bin_of op x (Value.imm n) true l) ((==_iff e d).0 same)
    ∙ ap (λ (k : ℕ). bin_of op d (Value.imm k) true l) ((==_iff n 32).0 half)
second-eq op d e (Value.imm n) false l h =
    let never = (and-true ((e == d) && (n == 32)) false h).1 in cc
second-eq op d e (Value.reg r) w l h =
    let never = (and-true (e == d) false (and-true ((e == d) && false) w h).0).1 in cc

-- Where a left shift by half a word and the next instruction are merged, and the shifted
-- register holds a 64-bit word, the one instruction and the two both have a result, and it is
-- the same in every register.
pub merge_shifts-Agree :
    (b next m : Bin) (s : Registers)
    → IsWord (s b.dst)
    → is_half_shift b ≡ true
    → merge_shifts b next ≡ some m
    → Agree b next m s
unfolding merge_shifts
merge_shifts-Agree b next m s h shift e =
    elim (Bool-cases (same_shift b.dst next.dst next.v next.is64)) [
      | inr other ↦ absurd (cc (rw other at e))
      | inl same ↦
          let first = half_shift-eq b.op b.dst b.v b.is64 b.lddw shift in
          let second = second-eq next.op b.dst next.dst next.v next.is64 next.lddw same in
          let found = subst (λ (f : Bin). merged f next.op ≡ some m) first (rw same at e) in
          subst (λ (n : Bin). Agree b n m s) (sym second)
            (subst (λ (f : Bin). Agree f (by_half next.op b.dst next.lddw) m s) (sym first)
              (second_shift-Agree next.op b.dst b.lddw next.lddw m s h found))
    ]
