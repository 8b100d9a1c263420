-- ===== src/Crab/Splitdbm/Graph/Slots.antt =====
-- src/crab/splitdbm/graph.rs: the slots of the weights, which no two edges share.
use prevail_rust.Base.Tests.{
  ℕ, zero, suc, ◌≤◌, ◌<◌, ◌≡◌, ◌≢◌, refl, Bool, true, false, ◌||◌, some, if◌then◌else◌, List, [],
  ◌∷◌, ◌++◌, ◌==◌, arith,
}
use prevail_rust.Base.Lists.{length, get_elem?, set, length-set, length-append}
use prevail_rust.Base.Maps.{get, nat_ord}
use prevail_rust.Base.Maps.Ordered.{IsOrdered}
use prevail_rust.Crab.Splitdbm.Graph.{VertId, Weight, AdaptGraph, row, slot_of, take_slot}

-- A slot is on the stack of the free slots.
abbrev pub mem : ℕ → List ℕ → Bool
mem i [] = false
mem i (j ∷ js) = i == j || mem i js

abbrev pub IsNodup : List ℕ → Type 0
IsNodup [] = Unit {0}
IsNodup (j ∷ js) = (mem j js ≡ false) × IsNodup js

pub record IsSound (g : AdaptGraph) : Type 0 where
  pub rows : length g.preds ≡ length g.succs
  pub succs_ordered : (v : VertId) → IsOrdered (row g.succs v)
  pub preds_ordered : (v : VertId) → IsOrdered (row g.preds v)
  -- Both ends of an edge name the same slot.
  pub mirrored : (s d : VertId) → get s (row g.preds d) ≡ slot_of g s d
  -- A slot in use lies in the vector, belongs to one edge, and is not free.
  pub slot_bound : (s d i : ℕ) → slot_of g s d ≡ some i → i < length g.ws
  pub slot_once :
      (s d s' d' i : ℕ) → slot_of g s d ≡ some i → slot_of g s' d' ≡ some i → (s ≡ s') × (d ≡ d')
  pub slot_used : (s d i : ℕ) → slot_of g s d ≡ some i → mem i g.free_widx ≡ false
  pub free_bound : (i : ℕ) → mem i g.free_widx ≡ true → i < length g.ws
  pub free_once : IsNodup g.free_widx

module _ {ℓ} {A : Type ℓ} where
  pub get_elem?-set :
      (xs : List A) (i j : ℕ) (v : A)
      → i < length xs
      → get_elem? (set xs i v) j ≡ (if i == j then some v else get_elem? xs j)
  get_elem?-set [] i j v h = absurd (omega arith)
  get_elem?-set (x ∷ xs) zero zero v h = refl
  get_elem?-set (x ∷ xs) zero (suc j) v h = ground arith
  get_elem?-set (x ∷ xs) (suc i) zero v h = ground arith
  get_elem?-set (x ∷ xs) (suc i) (suc j) v h = ground (arith, get_elem?-set xs i j v)

  pub get_elem?-snoc :
      (xs : List A) (j : ℕ) (v : A)
      → get_elem? (xs ++ v ∷ []) j ≡ (if length xs == j then some v else get_elem? xs j)
  get_elem?-snoc [] zero v = refl
  get_elem?-snoc [] (suc j) v = ground arith
  get_elem?-snoc (x ∷ xs) zero v = ground arith
  get_elem?-snoc (x ∷ xs) (suc j) v = ground (arith, get_elem?-snoc xs j v)

  pub get_elem?-below : (xs : List A) (i : ℕ) → i < length xs → (x : A) × (get_elem? xs i ≡ some x)
  get_elem?-below [] i h = absurd (omega arith)
  get_elem?-below (x ∷ xs) zero h = (x, refl)
  get_elem?-below (x ∷ xs) (suc i) h = get_elem?-below xs i (omega arith)

-- What `take_slot` hands out.
pub record Taken (g : AdaptGraph) (w : Weight) (old : List ℕ) (ws : List Weight) (free : List ℕ)
    (i : ℕ) : Type 0 where
  pub bound : i < length ws
  pub grows : length g.ws ≤ length ws
  pub values : (j : ℕ) → get_elem? ws j ≡ (if i == j then some w else get_elem? g.ws j)
  pub unused : (s d : VertId) → slot_of g s d ≢ some i
  pub not_free : mem i free ≡ false
  pub still_free : (j : ℕ) → mem j free ≡ true → mem j old ≡ true
  pub once : IsNodup free

take_slot-cases :
    (g : AdaptGraph) (w : Weight) (free : List ℕ)
    → ((s d i : ℕ) → slot_of g s d ≡ some i → i < length g.ws)
    → ((i : ℕ) → mem i free ≡ true → i < length g.ws)
    → ((s d i : ℕ) → slot_of g s d ≡ some i → mem i free ≡ false)
    → IsNodup free
    → Taken g w free (take_slot w g.ws free).0 (take_slot w g.ws free).1 (take_slot w g.ws free).2
unfolding take_slot
take_slot-cases g w [] bound free_bound used once = record {
  bound = omega (arith, length-append g.ws (w ∷ []));
  grows = omega (arith, length-append g.ws (w ∷ []));
  values = λ j. get_elem?-snoc g.ws j w;
  unused = λ s d e. absurd (omega (arith, bound s d (length g.ws) e));
  not_free = refl;
  still_free = λ j m. m;
  once = tt;
}
take_slot-cases g w (i ∷ free) bound free_bound used once = record {
  bound = omega (arith, length-set g.ws i w, free_bound i (ground arith));
  grows = omega (arith, length-set g.ws i w);
  values = λ j. get_elem?-set g.ws i j w (free_bound i (ground arith));
  unused = λ s d e. ground (arith, used s d i e);
  not_free = once.0;
  still_free = λ j m. rw m (ground arith);
  once = once.1;
}

pub take_slot-Taken :
    (g : AdaptGraph) (w : Weight)
    → IsSound g
    → Taken g w g.free_widx
        (take_slot w g.ws g.free_widx).0
        (take_slot w g.ws g.free_widx).1
        (take_slot w g.ws g.free_widx).2
take_slot-Taken g w h =
    take_slot-cases g w g.free_widx h.slot_bound h.free_bound h.slot_used h.free_once
