-- ===== src/Base/Decimal.antt =====
-- Integers as decimal text.
use prevail_rust.Base.Tests.{ℕ, zero, suc, ◌+◌, ◌/◌, ◌%◌, List, [], ◌∷◌, ◌++◌, ltb, if◌then◌else◌}
use prevail_rust.Base.Int.{ℤ, pos, negsuc}

abbrev digits : ℕ → ℕ → List ℕ
digits zero n = []
digits (suc fuel) n =
    let rest = digits fuel (n / 10) in (if ltb n 10 then [] else rest) ++ ((48 + n % 10) ∷ [])

-- The code points of the number; an `i128` has 39 digits at most.
unfoldable pub to_string : ℤ → List ℕ
to_string (pos n) = digits 39 n
to_string (negsuc n) = 45 ∷ digits 39 (suc n)
