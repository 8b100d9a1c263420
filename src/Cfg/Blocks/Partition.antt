-- ===== src/Cfg/Blocks/Partition.antt =====
-- src/cfg/graph.rs: what the set of basic blocks covers.
use prevail_rust.Base.Tests.{
  ℕ, suc, ◌+◌, ◌≤◌, ◌≡◌, refl, sym, ◌∙◌, Bool, true, false, not, ◌&&◌, ◌||◌, some, List, [], ◌∷◌,
  Bool-cases, inl, inr, arith,
}
use Prim.Native.Nat.{Ordering}
use prevail_rust.Base.Lists.{length}
use prevail_rust.Base.Maps.{get, insert, same, same_iff, same_self}
use prevail_rust.Cfg.Label.{Label, label_ord, cmp_label, cmp_label_iff, entry, exit}
use prevail_rust.Cfg.Graph.{Cfg, LabelSet, has, contains}
use prevail_rust.Cfg.Graph.Edges.{has-insert}
use prevail_rust.Cfg.Graph.Invariant.{WellFormed}
use prevail_rust.Cfg.Graph.Splice.{mem}
use prevail_rust.Cfg.Blocks.{
  BasicBlock, new, labels, insert_block, nodes, simplified, unsimplified, collect_basic_blocks,
  last_label,
}
use prevail_rust.Cfg.Blocks.Chains.{
  IsChain, IsBlock, count, bit, extend_total, is_merged_total, unseen-le, length-nodes, mem-nodes,
}

-- How often a label stands in the blocks, and whether it does.
abbrev pub tally : Label → List BasicBlock → ℕ
tally x [] = 0
tally x (b ∷ bs) = count x (labels b) + tally x bs

abbrev pub covers : Label → List BasicBlock → Bool
covers x [] = false
covers x (b ∷ bs) = mem x (labels b) || covers x bs

abbrev pub AllChains : Cfg → List BasicBlock → Type 0
AllChains g [] = Unit {0}
AllChains g (b ∷ bs) = IsChain g b.first b.others × AllChains g bs

tally-insert_block :
    (x : Label) (bb : BasicBlock) (bs : List BasicBlock)
    → tally x (insert_block bb bs) ≤ count x (labels bb) + tally x bs
unfolding insert_block
tally-insert_block x bb [] = omega arith
tally-insert_block x bb (b ∷ bs) =
    by_cmp (cmp_label bb.first b.first) refl (tally-insert_block x bb bs)
  where
    by_cmp :
        (c : Ordering)
        → cmp_label bb.first b.first ≡ c
        → tally x (insert_block bb bs) ≤ count x (labels bb) + tally x bs
        → tally x (insert_block bb (b ∷ bs)) ≤ count x (labels bb) + tally x (b ∷ bs)
    by_cmp Ordering.lt e ih = rw e (omega arith)
    by_cmp Ordering.eq e ih = rw e (omega arith)
    by_cmp Ordering.gt e ih = rw e (omega arith)

AllChains-insert_block :
    (g : Cfg) (bb : BasicBlock) (bs : List BasicBlock)
    → IsChain g bb.first bb.others
    → AllChains g bs
    → AllChains g (insert_block bb bs)
unfolding insert_block
AllChains-insert_block g bb [] h a = (h, tt)
AllChains-insert_block g bb (b ∷ bs) h a =
    by_cmp (cmp_label bb.first b.first) refl (AllChains-insert_block g bb bs h a.1)
  where
    by_cmp :
        (c : Ordering)
        → cmp_label bb.first b.first ≡ c
        → AllChains g (insert_block bb bs)
        → AllChains g (insert_block bb (b ∷ bs))
    by_cmp Ordering.lt e ih = rw e (h, a)
    by_cmp Ordering.eq e ih = rw e a
    by_cmp Ordering.gt e ih = rw e (a.0, ih)

covers-insert_block :
    (x l : Label) (bs : List BasicBlock)
    → covers x (insert_block (new l) bs) ≡ (same x l || covers x bs)
unfolding insert_block new
covers-insert_block x l [] = ground arith
covers-insert_block x l (b ∷ bs) = by_cmp (cmp_label l b.first) refl (covers-insert_block x l bs)
  where
    by_cmp :
        (c : Ordering)
        → cmp_label l b.first ≡ c
        → covers x (insert_block (new l) bs) ≡ (same x l || covers x bs)
        → covers x (insert_block (new l) (b ∷ bs)) ≡ (same x l || covers x (b ∷ bs))
    by_cmp Ordering.lt e ih = rw e (ground arith)
    by_cmp Ordering.eq e ih = rw (e, (cmp_label_iff l b.first).0 e) (ground arith)
    by_cmp Ordering.gt e ih = rw (e, ih) (ground arith)

-- A block of one label that was not seen.
new-IsBlock :
    (g : Cfg) (l : Label) (seen : LabelSet) (res : List BasicBlock)
    → contains l g ≡ true
    → has l seen ≡ false
    → ((x : Label) → tally x res ≤ bit (has x seen))
    → IsBlock g (new l) (insert l tt seen) (λ x. tally x res)
unfolding new
new-IsBlock g l seen res c h t = record {
  chain = c;
  fresh = λ x. rw (has-insert x l seen) (elim (Bool-cases (same x l)) [
    | inl e ↦ let unseen : has x seen ≡ false = rw ((same_iff x l).0 e) h in ground (arith, t x)
    | inr e ↦ ground (arith, t x)
  ]);
}

last_label-new : (l : Label) → last_label (new l) ≡ l
unfolding last_label new
last_label-new l = refl

simplified_total :
    (g : Cfg) (ls : List Label) (seen : LabelSet) (res : List BasicBlock)
    → WellFormed g
    → ((x : Label) → mem x ls ≡ true → contains x g ≡ true)
    → AllChains g res
    → ((x : Label) → tally x res ≤ bit (has x seen))
    → (blocks : List BasicBlock) × (simplified g ls seen res ≡ some blocks)
      × AllChains g blocks
      × ((x : Label) → tally x blocks ≤ 1)
unfolding simplified
simplified_total g [] seen res w c a t = (res, refl, a, λ x. ground (arith, t x))
simplified_total g (l ∷ ls) seen res w c a t = elim (Bool-cases (has l seen)) [
  | inl old ↦
      let (blocks, e, chains, once) =
        simplified_total g ls seen res w (λ x m. c x (ground arith)) a t in
      (blocks, rw old e, chains, once)
  | inr new_label ↦
      let here : contains l g ≡ true = c l (rw (same_self l) refl) in
      let (merged, em) = is_merged_total l g w here in
      elim (Bool-cases merged) [
        | inl wait ↦
            let (blocks, e, chains, once) =
              simplified_total g ls (insert l tt seen) res w (λ x m. c x (ground arith)) a
                (λ x. rw (has-insert x l seen) (ground (arith, t x))) in
            (blocks, rw (new_label, em, wait) e, chains, once)
        | inr alone ↦
            let (b, s, run, done) =
              extend_total (suc (length g)) g l (new l) (insert l tt seen) (λ x. tally x res) w
                (omega (arith, unseen-le (insert l tt seen) (nodes g), length-nodes g)) here
                (last_label-new l) (new-IsBlock g l seen res here new_label t) in
            let (blocks, e, chains, once) =
              simplified_total g ls s (insert_block b res) w (λ x m. c x (ground arith))
                (AllChains-insert_block g b res done.chain a)
                (λ x. omega (arith, tally-insert_block x b res, done.fresh x)) in
            (blocks, rw (new_label, em, alone, run) e, chains, once)
      ]
]

-- For a well-formed graph, the collection of simplified basic blocks ends without a panic, its
-- loops within the fuel of one round for each node and one more. In every block each label is
-- followed by its only child, whose only parent it is, and no label stands twice in a block or
-- in two blocks.
pub collect_basic_blocks-AllChains :
    (g : Cfg)
    → WellFormed g
    → (blocks : List BasicBlock) × (collect_basic_blocks g true ≡ some blocks)
      × AllChains g blocks
      × ((x : Label) → tally x blocks ≤ 1)
unfolding collect_basic_blocks get
collect_basic_blocks-AllChains g w =
    simplified_total g (nodes g) [] [] w (λ x m. sym (mem-nodes x g) ∙ m) tt (λ x. omega arith)

covers-unsimplified :
    (x : Label) (ls : List Label) (res : List BasicBlock)
    → covers x (unsimplified ls res)
      ≡ ((mem x ls && (not (same x entry) && not (same x exit))) || covers x res)
unfolding unsimplified
covers-unsimplified x [] res = refl
covers-unsimplified x (l ∷ ls) res = elim (Bool-cases (not (same l entry) && not (same l exit))) [
  | inl h ↦
      rw (h, covers-unsimplified x ls (insert_block (new l) res), covers-insert_block x l res)
        (elim (Bool-cases (same x l)) [
          | inl e ↦ rw (e, (same_iff x l).0 e, h) (ground arith)
          | inr e ↦ rw e refl
        ])
  | inr h ↦
      rw (h, covers-unsimplified x ls res)
        (elim (Bool-cases (same x l)) [
          | inl e ↦ rw (e, (same_iff x l).0 e, h) (ground arith)
          | inr e ↦ rw e refl
        ])
]

-- Without simplification, the labels of the basic blocks are exactly the nodes of the graph
-- other than the entry and the exit.
pub collect_basic_blocks-covers :
    (g : Cfg)
    → (blocks : List BasicBlock) × (collect_basic_blocks g false ≡ some blocks)
      × ((x : Label)
          → covers x blocks ≡ (contains x g && (not (same x entry) && not (same x exit))))
unfolding collect_basic_blocks
collect_basic_blocks-covers g = (
  unsimplified (nodes g) [],
  refl,
  λ x. covers-unsimplified x (nodes g) [] ∙ rw (mem-nodes x g) (ground arith),
)
