-- ===== src/TypeCheck/Tests.antt =====
-- The theorems on the types of expressions, on examples.
use arrp.Common.{◌+◌, ◌^◌, ◌≢◌, some, none, arith, ◌≡◌, refl, List, [], ◌∷◌}
use arrp.Common.Int.{ℤ, pos, negsuc, ◌+ℤ◌}
use arrp.Primitive.{PrimitiveType, int8, real64}
use arrp.Primitive.Order.{le, lt}
use arrp.Primitive.CommonType.{common_type, max_element, Has}
use arrp.FuncType.{
  FuncType, TypePtrs, scalar_type, array_type, function_type, meta_type, to, nil, cons,
  ArraySizeVec, type_for, is_data, is_infinite,
}
use arrp.FuncType.ArraySize.{common_array_size, common_dims}
use arrp.TypeCheck.Typed.{typed, rejected, dimension_out_of_bounds, ◌>>=◌}
use arrp.TypeCheck.Array.{
  join_operand, visit_elements, process_array_enum, split_operand, visit_concat,
  process_array_concat,
}
use arrp.TypeCheck.Array.Elements.{elements_of, AllFit, process_array_enum_sound}
use arrp.TypeCheck.Array.Count.{HasLength, inners_of}
use arrp.TypeCheck.Array.Length.{process_array_concat_sound}
use arrp.TypeCheck.Access.{
  object_parts, check_arguments, visit_array_app, visit_array_size, check_self_ref,
}
use arrp.TypeCheck.Access.Compose.{visit_array_app-append, visit_array_size-app}
use arrp.TypeCheck.Function.{
  check_external_type, check_external_types, external_type, visit_external, concrete,
  visit_func_app,
}
use arrp.TypeCheck.Function.Accepted.{targets, IsPassable, ArePassable, visit_external-applicable}

abbrev stream : FuncType
stream = array_type (negsuc 0 ∷ pos 3 ∷ []) int8

abbrev concatenated : List FuncType
concatenated = scalar_type int8 ∷ array_type (pos 2 ∷ pos 3 ∷ []) real64 ∷ stream ∷ []

abbrev one_param : TypePtrs
one_param = cons (to (array_type (pos 3 ∷ []) int8)) nil

-- [[1, 2, 3], 4]
process_array_enum_sound_example :
    (common : ArraySizeVec) × (elem : PrimitiveType) × (array_type (pos 2 ∷ pos 3 ∷ []) real64
      ≡ array_type (pos 2 ∷ common) elem)
    × AllFit common elem (array_type (pos 3 ∷ []) int8 ∷ scalar_type real64 ∷ [])
    × Has (int8 ∷ real64 ∷ []) elem
unfolding process_array_enum visit_elements is_data join_operand common_array_size common_type
    max_element le lt
process_array_enum_sound_example =
    process_array_enum_sound (array_type (pos 3 ∷ []) int8 ∷ scalar_type real64 ∷ [])
      {t = array_type (pos 2 ∷ pos 3 ∷ []) real64} refl

-- A scalar, an array of two elements and an infinite array.
process_array_concat_sound_example :
    (total : ℤ) × (common : ArraySizeVec) × (elem : PrimitiveType) × (array_type
        (negsuc 0 ∷ pos 3 ∷ [])
        real64
      ≡ array_type (total ∷ common) elem)
    × HasLength concatenated total
    × AllFit common elem (inners_of concatenated)
    × Has (elements_of (inners_of concatenated)) elem
unfolding process_array_concat visit_concat split_operand is_data join_operand common_array_size
    common_dims common_type max_element le lt ◌+ℤ◌
process_array_concat_sound_example =
    process_array_concat_sound concatenated {t = array_type (negsuc 0 ∷ pos 3 ∷ []) real64} refl

visit_array_app-append_example :
    (visit_array_app none stream (scalar_type int8 ∷ scalar_type int8 ∷ []) ≡ (
      visit_array_app none stream (scalar_type int8 ∷ []) >>= λ t.
      visit_array_app none t (scalar_type int8 ∷ [])))
    × (visit_array_app (some 3) stream (scalar_type int8 ∷ []) ≢ typed stream)
visit_array_app-append_example =
    visit_array_app-append stream (scalar_type int8 ∷ []) (scalar_type int8 ∷ []) (scalar_type int8)
      stream

-- A reference of an array to itself that is applied exactly.
applied_exactly :
    visit_array_app (some 1) stream (scalar_type int8 ∷ []) ≡ typed (array_type (pos 3 ∷ []) int8)
unfolding visit_array_app check_self_ref object_parts check_arguments type_for
applied_exactly = refl

visit_array_size-app_example :
    (visit_array_size (type_for (negsuc 0 ∷ pos 3 ∷ []) int8) (pos 2) ≡ typed (some 3))
    × (visit_array_size (array_type (pos 3 ∷ []) int8) (pos 1) ≡ typed (some 3))
unfolding visit_array_app check_self_ref object_parts check_arguments type_for
visit_array_size-app_example =
    visit_array_size-app (negsuc 0 ∷ []) [] (pos 3) int8 (scalar_type int8 ∷ [])
      {t = array_type (pos 3 ∷ []) int8} (omega arith) refl refl

-- A dimension that is no `int`: 2^31 is a negative number there, and 2^32 + 1 is 1.
large_dimension :
    (visit_array_size stream (pos (2 ^ 31)) ≡ rejected dimension_out_of_bounds)
    × (visit_array_size stream (pos (2 ^ 32 + 1)) ≡ typed none)
unfolding visit_array_size
large_dimension = (refl, refl)

visit_external-applicable_example :
    (t : FuncType) × (to (scalar_type real64) ≡ to t)
    × ArePassable (targets one_param)
    × IsPassable t
    × (visit_func_app (function_type one_param (to (scalar_type real64))) (targets one_param)
        ≡ typed t)
unfolding visit_external concrete external_type check_external_types check_external_type is_infinite
visit_external-applicable_example =
    visit_external-applicable (meta_type (to (function_type one_param (to (scalar_type real64)))))
      one_param (to (scalar_type real64)) refl (tt, tt)
