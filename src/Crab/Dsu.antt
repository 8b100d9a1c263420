-- ===== src/Crab/Dsu.antt =====
-- src/crab/dsu.rs: a disjoint-set forest with path compression and union by rank. An index out of
-- bounds panics, which is `none`. The recursion of `find` and the loop of `find_const` climb towards
-- higher ranks, so one more step than the highest rank is enough fuel.
use Prim.Native.Nat.{max}
use prevail_rust.Base.Tests.{
  ℕ, zero, suc, ◌+◌, Option, none, some, Bool, List, [], ◌∷◌, ◌++◌, ltb, ◌==◌, if◌then◌else◌, ◌>>=◌,
}
use prevail_rust.Base.Lists.{length, get_elem?, set, replicate}
pub mod Roots
pub mod Find
pub mod Hang
pub mod Union
pub mod Grow
mod Tests

pub record DisjointSetUnion : Type 0 where
  pub parent : List ℕ
  pub rank : List ℕ

-- `(0..n).collect()`, counting from `i`.
range : ℕ → ℕ → List ℕ
range i zero = []
range i (suc n) = i ∷ range (suc i) n

pub new : ℕ → DisjointSetUnion
unfolding range
new n = record { parent = range 0 n; rank = replicate n 0 }

abbrev pub len : DisjointSetUnion → ℕ
len s = length s.parent

pub max_rank : List ℕ → ℕ
max_rank [] = 0
max_rank (r ∷ rs) = max r (max_rank rs)

-- An element is its own parent, or its parent's representative becomes its parent.
find_fuel : ℕ → DisjointSetUnion → ℕ → Option (DisjointSetUnion × ℕ)
find_fuel zero s x = none
find_fuel (suc fuel) s x =
    let compress = find_fuel fuel in
    get_elem? s.parent x >>= λ p.
    if p == x
    then some (s, x)
    else compress s p >>= λ (s', r). some (record s' { parent = set s'.parent x r }, r)

pub find : DisjointSetUnion → ℕ → Option (DisjointSetUnion × ℕ)
unfolding find_fuel max_rank
find s x = find_fuel (suc (max_rank s.rank)) s x

-- The walk without compression.
find_const_fuel : ℕ → DisjointSetUnion → ℕ → Option ℕ
find_const_fuel zero s cur = none
find_const_fuel (suc fuel) s cur =
    let walk = find_const_fuel fuel in
    get_elem? s.parent cur >>= λ p. if p == cur then some cur else walk s p

pub find_const : DisjointSetUnion → ℕ → Option ℕ
unfolding find_const_fuel max_rank
find_const s x = find_const_fuel (suc (max_rank s.rank)) s x

-- The roots are linked by rank: the lower one gets the higher one as its parent.
link : DisjointSetUnion → ℕ → ℕ → Option (DisjointSetUnion × ℕ)
link s rx ry = do
  kx ← get_elem? s.rank rx
  ky ← get_elem? s.rank ry
  if ltb kx ky
      then some (record s { parent = set s.parent rx ry }, ry)
      else if ltb ky kx
      then some (record s { parent = set s.parent ry rx }, rx)
      else some (record s { parent = set s.parent ry rx; rank = set s.rank rx (kx + 1) }, rx)

pub union : DisjointSetUnion → ℕ → ℕ → Option (DisjointSetUnion × ℕ)
union s x y = do
  (s', rx) ← find s x
  (s'', ry) ← find s' y
  if rx == ry then some (s'', rx) else link s'' rx ry

pub same_set : DisjointSetUnion → ℕ → ℕ → Option Bool
unfolding find_const
same_set s x y = do rx ← find_const s x; ry ← find_const s y; some (rx == ry)

pub push : DisjointSetUnion → DisjointSetUnion × ℕ
push s = (record { parent = s.parent ++ len s ∷ []; rank = s.rank ++ 0 ∷ [] }, len s)
