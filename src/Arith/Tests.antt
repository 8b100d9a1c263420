-- ===== src/Arith/Tests.antt =====
-- The laws of src/arith/number.rs at concrete numbers.
use prevail_rust.Base.Tests.{◌≡◌, some, arith}
use prevail_rust.Base.Int.{pos}
use prevail_rust.Arith.Number.{Number, sign_extend}
use prevail_rust.Arith.Number.Extend.{IsSignExtension, sign_extend-IsSignExtension}

sign_extend-IsSignExtension_example :
    (r : Number) × (sign_extend (pos 200) 8 ≡ some r) × IsSignExtension 8 (pos 200) r
sign_extend-IsSignExtension_example =
    sign_extend-IsSignExtension (pos 200) 8 (omega arith) (omega arith) (omega arith, omega arith)
