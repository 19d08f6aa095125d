-- ===== src/FuncType.antt =====
-- common/func_types.hpp and common/func_types.cpp: the types of expressions. A size of an array is an
-- integer, negative where the array is infinite in that dimension. A `type_ptr` can be null.
pub mod ArraySize
pub mod Equality
pub mod Construct
mod Tests
use arrp.Common.{◌+◌, Bool, true, false, not, ◌||◌, List, [], ◌∷◌, arith, ◌==◌}
use arrp.Common.Int.{ℤ, pos, pos_part, neg_part, ltb_ℤ}
use arrp.Primitive.{PrimitiveType, same_type, infinity}
use arrp.Primitive.Order.{le}

-- `==` of two integers.
abbrev pub same_int : ℤ → ℤ → Bool
same_int a b = pos_part a + neg_part b == pos_part b + neg_part a

abbrev pub ArraySizeVec : Type 0
ArraySizeVec = List ℤ

mutual
  pub data FuncType : Type 0 where
    scalar_type : PrimitiveType → FuncType
    array_type : ArraySizeVec → PrimitiveType → FuncType
    function_type : TypePtrs → TypePtr → FuncType
    meta_type : TypePtr → FuncType

  pub data TypePtr : Type 0 where
    null : TypePtr
    to : FuncType → TypePtr

  pub data TypePtrs : Type 0 where
    nil : TypePtrs
    cons : TypePtr → TypePtrs → TypePtrs

unfoldable pub is_scalar : FuncType → Bool
is_scalar (scalar_type p) = true
is_scalar _ = false

unfoldable pub is_array : FuncType → Bool
is_array (array_type s e) = true
is_array _ = false

unfoldable pub is_function : FuncType → Bool
is_function (function_type ps v) = true
is_function _ = false

unfoldable pub is_meta : FuncType → Bool
is_meta (meta_type c) = true
is_meta _ = false

unfoldable pub is_data : FuncType → Bool
is_data (scalar_type p) = not (same_type p infinity)
is_data (array_type s e) = not (same_type e infinity)
is_data _ = false

-- `array_type::is_infinite`, on the sizes.
unfoldable pub is_infinite : ArraySizeVec → Bool
is_infinite [] = false
is_infinite (s ∷ ss) = ltb_ℤ s (pos 0) || is_infinite ss

-- `type_for`.
unfoldable pub type_for : ArraySizeVec → PrimitiveType → FuncType
type_for [] e = scalar_type e
type_for (s ∷ ss) e = array_type (s ∷ ss) e
