-- ===== src/ArrayTranspose/Tests.antt =====
-- The transposition of an array, and the theorems on it, on an example.
use arrp.Common.{ℕ, ◌≡◌, ◌↔◌, refl, true, List, [], ◌∷◌, length, some, arith}
use mathlib.Core.List.{Perm}
use arrp.Common.Int.{ℤ, pos, negsuc}
use arrp.Primitive.{int8}
use arrp.FuncType.{ArraySizeVec, array_type}
use arrp.ArrayTranspose.{
  ok, order_dimension, order_dimensions, transpose_order, reorder, ordered_size, ordered_expr,
  apply_order, transpose_typed, transpose_array, array, visit_array_app,
}
use arrp.ArrayTranspose.Front.{front, Streaming, transpose_order_iff}
use arrp.ArrayTranspose.Access.{zip, visit_array_app_lem}

abbrev size : ArraySizeVec
size = pos 3 ∷ negsuc 0 ∷ pos 4 ∷ []

transposed :
    transpose_array (record { expr = array (7 ∷ 8 ∷ []); type = array_type size int8 })
    ≡ ok (
      record { expr = array (8 ∷ 7 ∷ []); type = array_type (negsuc 0 ∷ pos 3 ∷ pos 4 ∷ []) int8 },
      some (1 ∷ 0 ∷ 2 ∷ []),
    )
unfolding transpose_array transpose_typed apply_order ordered_expr ordered_size reorder
    transpose_order order_dimensions order_dimension
transposed = refl

transpose_order_iff_example : (transpose_order size ≡ ok (true, 1 ∷ 0 ∷ 2 ∷ [])) ↔ (
    (before : ArraySizeVec) × (n : ℤ) × (after : ArraySizeVec) × Streaming size before n after
    × (1 ∷ 0 ∷ 2 ∷ [] ≡ front (length before) (length after)))
transpose_order_iff_example = transpose_order_iff size (1 ∷ 0 ∷ 2 ∷ [])

visit_array_app_lem_example :
    (args' : List ℕ) × (visit_array_app (some (1 ∷ 0 ∷ 2 ∷ [])) (20 ∷ 30 ∷ []) ≡ ok args')
    × Perm (zip {X = ℕ} {Y = ℕ} (7 ∷ 8 ∷ []) (20 ∷ 30 ∷ [])) (zip (8 ∷ 7 ∷ []) args')
unfolding reorder transpose_order order_dimensions order_dimension
visit_array_app_lem_example =
    visit_array_app_lem size (1 ∷ 0 ∷ 2 ∷ []) (7 ∷ 8 ∷ []) (8 ∷ 7 ∷ []) (20 ∷ 30 ∷ []) refl
      (omega arith) refl refl
