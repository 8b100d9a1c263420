-- ===== src/Base/Maps/Ordered.antt =====
-- Maps with numbers as keys, in strictly ascending order as in a `BTreeMap`.
use prevail_rust.Base.Tests.{ℕ, ◌<◌, ◌≡◌, ◌≢◌, refl, none, [], ◌∷◌, arith}
use Prim.Native.Nat.{Ordering, compare}
use prevail_rust.Base.Maps.{Map, get, insert, remove, nat_ord, compare_iff}

module _ {V : Type 0} where
  abbrev pub AllAbove : ℕ → Map ℕ V → Type 0
  AllAbove k [] = Unit {0}
  AllAbove k ((v, c) ∷ m) = (k < v) × AllAbove k m

  -- Strictly ascending keys, as in a `BTreeMap`.
  abbrev pub IsOrdered : Map ℕ V → Type 0
  IsOrdered [] = Unit {0}
  IsOrdered ((v, c) ∷ m) = AllAbove v m × IsOrdered m

  pub AllAbove-lower : (j k : ℕ) (m : Map ℕ V) → j < k → AllAbove k m → AllAbove j m
  AllAbove-lower j k [] h a = tt
  AllAbove-lower j k ((v, c) ∷ m) h a = (omega arith, AllAbove-lower j k m h a.1)

  pub get-below : (v : ℕ) (m : Map ℕ V) → AllAbove v m → get v m ≡ none
  unfolding get
  get-below v [] a = refl
  get-below v ((k, c) ∷ m) a = ground (arith, get-below v m)

  pub AllAbove-insert :
      (k v : ℕ) (c : V) (m : Map ℕ V) → k < v → AllAbove k m → AllAbove k (insert v c m)
  unfolding insert
  AllAbove-insert k v c [] h a = (h, tt)
  AllAbove-insert k v c ((j, d) ∷ m) h a = by_cmp (compare v j) refl (AllAbove-insert k v c m h a.1)
    where
      by_cmp :
          (o : Ordering)
          → compare v j ≡ o
          → AllAbove k (insert v c m)
          → AllAbove k (insert v c ((j, d) ∷ m))
      by_cmp Ordering.lt e ih = rw e (h, a)
      by_cmp Ordering.eq e ih = rw e (h, a.1)
      by_cmp Ordering.gt e ih = rw e (a.0, ih)

  pub IsOrdered-insert : (v : ℕ) (c : V) (m : Map ℕ V) → IsOrdered m → IsOrdered (insert v c m)
  unfolding insert
  IsOrdered-insert v c [] o = (tt, tt)
  IsOrdered-insert v c ((j, d) ∷ m) o = by_cmp (compare v j) refl (IsOrdered-insert v c m o.1)
    where
      by_cmp :
          (r : Ordering)
          → compare v j ≡ r
          → IsOrdered (insert v c m)
          → IsOrdered (insert v c ((j, d) ∷ m))
      by_cmp Ordering.lt e ih = rw e ((ground arith, AllAbove-lower v j m (ground arith) o.0), o)
      by_cmp Ordering.eq e ih = rw (e, (compare_iff v j).0 e) o
      by_cmp Ordering.gt e ih = rw e (AllAbove-insert j v c m (ground arith) o.0, ih)

  pub AllAbove-remove : (k v : ℕ) (m : Map ℕ V) → AllAbove k m → AllAbove k (remove v m)
  unfolding remove
  AllAbove-remove k v [] a = tt
  AllAbove-remove k v ((j, d) ∷ m) a = ground (arith, AllAbove-remove k v m)

  pub IsOrdered-remove : (v : ℕ) (m : Map ℕ V) → IsOrdered m → IsOrdered (remove v m)
  unfolding remove
  IsOrdered-remove v [] o = tt
  IsOrdered-remove v ((j, d) ∷ m) o = ground (arith, IsOrdered-remove v m, AllAbove-remove j v m)

  pub remove-below : (v : ℕ) (m : Map ℕ V) → AllAbove v m → remove v m ≡ m
  unfolding remove
  remove-below v [] a = refl
  remove-below v ((k, c) ∷ m) a = ground (arith, remove-below v m)

  pub AllAbove-absent : (v u : ℕ) (m : Map ℕ V) → AllAbove v m → get u m ≢ none → v < u
  unfolding get
  AllAbove-absent v u [] a h = absurd (h refl)
  AllAbove-absent v u ((k, c) ∷ m) a h = ground (arith, AllAbove-absent v u m)
