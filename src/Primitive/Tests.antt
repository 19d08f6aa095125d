-- ===== src/Primitive/Tests.antt =====
-- The theorems on the primitive types, on examples.
use arrp.Common.{◌≡◌, ◌↔◌, refl, true, false, [], ◌∷◌, some, arith}
use arrp.Common.Int.{negsuc}
use arrp.Primitive.{boolean, int8, uint8, int16, int32, real32, real64}
use arrp.Primitive.Order.{lt, le, le_not_trans, le-InRange, InRange}
use arrp.Primitive.CommonType.{common_type, common_type_iff, Has, Below}

le_not_trans_example :
    (le boolean uint8 ≡ true) × (le uint8 real32 ≡ true) × (le boolean real32 ≡ false)
le_not_trans_example = le_not_trans uint8 real32 refl refl refl

le-InRange_example : InRange int16 (negsuc 99)
unfolding le lt
le-InRange_example = le-InRange int8 int16 (negsuc 99) refl refl refl (omega arith, omega arith)

common_type_iff_example :
    (common_type (int8 ∷ real64 ∷ int32 ∷ []) ≡ some real64)
    ↔ (Has (int8 ∷ real64 ∷ int32 ∷ []) real64 × Below (int8 ∷ real64 ∷ int32 ∷ []) real64)
common_type_iff_example = common_type_iff (int8 ∷ real64 ∷ int32 ∷ []) real64
