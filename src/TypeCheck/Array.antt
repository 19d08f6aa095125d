-- ===== src/TypeCheck/Array.antt =====
-- frontend/type_check.cpp: the types of concatenations, enumerations and case expressions.
pub mod Elements
pub mod Count
pub mod Length
use arrp.Common.{ℕ, ◌+◌, Bool, true, false, if◌then◌else◌, List, [], ◌∷◌, ◌++◌, length}
use arrp.Common.Int.{ℤ, pos, negsuc, ltb_ℤ, ◌+ℤ◌}
use arrp.Primitive.{PrimitiveType}
use arrp.Primitive.CommonType.{common_type}
use arrp.FuncType.{
  FuncType, scalar_type, array_type, function_type, meta_type, ArraySizeVec, type_for, is_data,
  same_int,
}
use arrp.FuncType.ArraySize.{common_array_size}
use arrp.TypeCheck.Typed.{
  TypeError, Typed, typed, rejected, ◌>>=◌, or_throw, not_data, behind_infinite, size_mismatch,
  unexpected_operand, incompatible_types, function_as_operand, assertion,
}

-- An operand's part in the common size, and its element type. (Neither a function nor a meta type is data.)
unfoldable pub join_operand :
    ArraySizeVec → List PrimitiveType → FuncType → Typed (ArraySizeVec × List PrimitiveType)
join_operand common elems (function_type ps v) = rejected function_as_operand
join_operand common elems (array_type size e) = do
  common' ← or_throw (common_array_size common size) size_mismatch
  typed (common', elems ++ e ∷ [])
join_operand common elems (scalar_type p) = typed (common, elems ++ p ∷ [])
join_operand common elems (meta_type c) = rejected unexpected_operand

-- The loop of `process_array_enum` and of `visit_cases`.
unfoldable pub visit_elements :
    ArraySizeVec → List PrimitiveType → List FuncType → Typed (ArraySizeVec × List PrimitiveType)
visit_elements common elems [] = typed (common, elems)
visit_elements common elems (t ∷ ts) =
    (if is_data t then join_operand common elems t else rejected not_data) >>= λ s.
    visit_elements s.0 s.1 ts

unfoldable pub process_array_enum : List FuncType → Typed FuncType
process_array_enum operands = do
  (common, elems) ← visit_elements [] [] operands
  elem ← or_throw (common_type elems) incompatible_types
  typed (array_type (pos (length operands) ∷ common) elem)

-- `visit_cases`, for the types of the cases. Their domains are checked apart from that.
unfoldable pub visit_cases : List FuncType → Typed FuncType
visit_cases cases = do
  (common, elems) ← visit_elements [] [] cases
  elem ← or_throw (common_type elems) incompatible_types
  typed (type_for common elem)

-- The operand of a concatenation as the type of one of its elements, and the number of them. An array
-- without a dimension fails the assertion.
unfoldable pub split_operand : FuncType → Typed (ℤ × FuncType)
split_operand (array_type [] e) = rejected assertion
split_operand (array_type (n ∷ rest) e) = typed (n, array_type rest e)
split_operand t = typed (pos 1, t)

-- `total_elem_count` with the elements of one more operand; -1 is an infinite array.
abbrev pub add_elem_count : ℤ → ℤ → ℤ
add_elem_count total count = if ltb_ℤ count (pos 0) then negsuc 0 else total +ℤ count

-- The loop of `process_array_concat`.
unfoldable pub visit_concat :
    ℤ
    → ArraySizeVec
    → List PrimitiveType
    → List FuncType
    → Typed (ℤ × ArraySizeVec × List PrimitiveType)
visit_concat total common elems [] = typed (total, common, elems)
visit_concat total common elems (t ∷ ts) =
    (if same_int total (negsuc 0)
      then rejected behind_infinite
      else if is_data t
      then split_operand t
      else rejected not_data)
    >>= λ part. join_operand common elems part.1 >>= λ s.
        visit_concat (add_elem_count total part.0) s.0 s.1 ts

-- The last assertion is that there is an element.
unfoldable pub process_array_concat : List FuncType → Typed FuncType
process_array_concat operands = do
  (total, common, elems) ← visit_concat (pos 0) [] [] operands
  elem ← or_throw (common_type elems) incompatible_types
  if same_int total (pos 0) then rejected assertion else typed (array_type (total ∷ common) elem)
