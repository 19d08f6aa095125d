-- ===== src/TypeCheck/Function.antt =====
-- frontend/type_check.cpp: type expressions, external functions and applications of functions.
pub mod Accepted
use Prim.Native.String.{String}
use arrp.Common.{
  ℕ, suc, ◌==◌, Bool, true, false, ◌&&◌, if◌then◌else◌, List, [], ◌∷◌, Option, none, some,
}
use arrp.Common.Int.{ℤ, pos, negsuc, ltb_ℤ, to_int}
use arrp.Primitive.{PrimitiveType, same_type, undefined}
use arrp.Primitive.TypeName.{primitive_type_for_name}
use arrp.FuncType.{
  FuncType, TypePtr, TypePtrs, scalar_type, array_type, function_type, meta_type, null, to, nil,
  cons, ArraySizeVec, is_infinite,
}
use arrp.FuncType.Equality.{subtype, param_count}
use arrp.TypeCheck.Typed.{
  TypeError, Typed, typed, rejected, ◌>>=◌, not_a_type, invalid_type_name, invalid_size,
  negative_size, input_of_function, external_not_function, external_infinite, external_of_function,
  not_a_function, wrong_argument_count, argument_mismatch, null_type,
}

-- A size in an array type: an integer constant, with what `signed_value` gives of it, infinity, or another expression.
pub data SizeExpr : Type 0 where
  constant : ℤ → SizeExpr
  infinite other_size : SizeExpr

unfoldable pub visit_type_name : String → Typed FuncType
visit_type_name name =
    let pt = primitive_type_for_name name in
    if same_type pt undefined
    then rejected invalid_type_name
    else typed (meta_type (to (scalar_type pt)))

-- The loop over the sizes, which are stored as `int`.
unfoldable pub visit_sizes : List SizeExpr → Typed ArraySizeVec
visit_sizes [] = typed []
visit_sizes (constant v ∷ es) =
    let rest = visit_sizes es >>= λ size. typed (to_int v ∷ size) in
    if ltb_ℤ v (pos 0) then rejected negative_size else rest
visit_sizes (infinite ∷ es) = visit_sizes es >>= λ size. typed (negsuc 0 ∷ size)
visit_sizes (other_size ∷ es) = rejected invalid_size

unfoldable pub visit_array_type : List SizeExpr → String → Typed FuncType
visit_array_type sizes element = do
  size ← visit_sizes sizes
  let element_type = primitive_type_for_name element
  if same_type element_type undefined
      then rejected invalid_type_name
      else typed (meta_type (to (array_type size element_type)))

-- What a type expression stands for.
unfoldable pub concrete : FuncType → Typed TypePtr
concrete (meta_type c) = typed c
concrete _ = rejected not_a_type

unfoldable pub concrete_params : List FuncType → Typed TypePtrs
concrete_params [] = typed nil
concrete_params (t ∷ ts) = concrete t >>= λ p. concrete_params ts >>= λ ps. typed (cons p ps)

unfoldable pub visit_func_type : List FuncType → FuncType → Typed FuncType
visit_func_type params result = do
  ps ← concrete_params params
  r ← concrete result
  typed (meta_type (to (function_type ps r)))

-- The test of a parameter or of the result of an external function. A null pointer is read.
unfoldable pub check_external_type : TypePtr → Typed (Unit {0})
check_external_type null = rejected null_type
check_external_type (to (array_type size e)) =
    if is_infinite size then rejected external_infinite else typed tt
check_external_type (to (function_type ps v)) = rejected external_of_function
check_external_type (to t) = typed tt

unfoldable pub check_external_types : TypePtrs → TypePtr → Typed (Unit {0})
check_external_types nil result = check_external_type result
check_external_types (cons p ps) result =
    check_external_type p >>= λ _. check_external_types ps result

-- `visit_external`: the type of an input or of an external function, for the type of its type expression.
unfoldable pub external_type : Bool → TypePtr → Typed FuncType
external_type is_input null = rejected null_type
external_type true (to (function_type ps v)) = rejected input_of_function
external_type true (to t) = typed t
external_type false (to (function_type ps v)) =
    check_external_types ps v >>= λ _. typed (function_type ps v)
external_type false (to t) = rejected external_not_function

unfoldable pub visit_external : Bool → FuncType → Typed FuncType
visit_external is_input type_expr = concrete type_expr >>= external_type is_input

-- `if (!ok)`, for a comparison that can read a null pointer, and the code that follows.
abbrev if_accepted : Option Bool → Typed (Unit {0}) → Typed (Unit {0})
if_accepted none rest = rejected null_type
if_accepted (some true) rest = rest
if_accepted (some false) rest = rejected argument_mismatch

-- The loop over the parameters, for as many arguments.
unfoldable pub check_call : TypePtrs → List FuncType → Typed (Unit {0})
check_call nil args = typed tt
check_call (cons p ps) [] = typed tt
check_call (cons null ps) (a ∷ args) = rejected null_type
check_call (cons (to p) ps) (a ∷ args) = if_accepted (subtype a p) (check_call ps args)

abbrev pub count : List FuncType → ℕ
count [] = 0
count (t ∷ ts) = suc (count ts)

unfoldable pub visit_func_app : FuncType → List FuncType → Typed FuncType
visit_func_app (function_type ps null) args =
    if count args == param_count ps
    then (check_call ps args >>= λ _. rejected null_type)
    else rejected wrong_argument_count
visit_func_app (function_type ps (to v)) args =
    if count args == param_count ps
    then (check_call ps args >>= λ _. typed v)
    else rejected wrong_argument_count
visit_func_app _ args = rejected not_a_function
