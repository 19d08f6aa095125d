-- ===== src/TypeCheck/Access.antt =====
-- frontend/type_check.cpp: the types of applications of arrays, and the sizes of arrays.
pub mod Compose
use arrp.Common.{
  ℕ, zero, suc, ◌+◌, ◌-◌, Bool, true, false, if◌then◌else◌, ◌==◌, length, List, [], ◌∷◌, Option,
  none, some,
}
use arrp.Common.Int.{ℤ, pos, negsuc, ltb_ℤ, to_int, ◌-ℤ◌, pos_part}
use arrp.Primitive.{PrimitiveType, is_integer}
use arrp.FuncType.{
  FuncType, scalar_type, array_type, function_type, meta_type, ArraySizeVec, type_for,
}
use arrp.TypeCheck.Typed.{
  TypeError, Typed, typed, rejected, ◌>>=◌, not_applicable, not_applied_exactly,
  argument_not_scalar, argument_not_integer, dimension_out_of_bounds, assertion,
}

-- The size and the element type of the object of an application.
unfoldable pub object_parts : FuncType → Typed (ArraySizeVec × PrimitiveType)
object_parts (array_type s e) = typed (s, e)
object_parts (scalar_type p) = typed ([], p)
object_parts _ = rejected not_applicable

-- The loop over the arguments. (Whether an argument is affine makes no difference to its type.)
unfoldable pub check_arguments : List FuncType → Typed (Unit {0})
check_arguments [] = typed tt
check_arguments (scalar_type p ∷ ts) =
    let rest = check_arguments ts in if is_integer p then rest else rejected argument_not_integer
check_arguments (t ∷ ts) = rejected argument_not_scalar

-- The dimensions behind the first ones.
abbrev pub remaining_size : List FuncType → ArraySizeVec → ArraySizeVec
remaining_size [] size = size
remaining_size (t ∷ ts) [] = []
remaining_size (t ∷ ts) (n ∷ size) = remaining_size ts size

-- A reference of an array to itself, with the number of its variables, has to be applied to as many arguments.
unfoldable pub check_self_ref : Option ℕ → ℕ → Typed (Unit {0})
check_self_ref none n = typed tt
check_self_ref (some num_vars) n = if num_vars == n then typed tt else rejected not_applied_exactly

-- `visit_array_app`; `self` has the number of variables, where the object is a reference of an array to itself.
unfoldable pub visit_array_app : Option ℕ → FuncType → List FuncType → Typed FuncType
visit_array_app self object args = object_parts object >>= λ o.
    check_self_ref self (length args) >>= λ _.
    check_arguments args >>= λ _. typed (type_for (remaining_size args o.0) o.1)

-- The size in a dimension, from 0 on; a dimension that is not there has size 1.
abbrev pub size_at : ℕ → ArraySizeVec → ℤ
size_at d [] = pos 1
size_at zero (n ∷ size) = n
size_at (suc d) (n ∷ size) = size_at d size

-- The constant that replaces the expression; `none` is infinity.
abbrev pub size_constant : ℤ → Option ℕ
size_constant (pos n) = some n
size_constant (negsuc n) = none

-- `visit_array_size`, for a dimension that is a constant, with what `signed_value` gives of it, which is
-- converted to `int`; it is 1 where the expression has none. An array without a dimension fails the assertion.
unfoldable pub visit_array_size : FuncType → ℤ → Typed (Option ℕ)
visit_array_size (scalar_type p) dim = typed (some 1)
visit_array_size (array_type [] e) dim = rejected assertion
visit_array_size (array_type (n ∷ size) e) dim =
    if ltb_ℤ (to_int dim) (pos 1)
    then rejected dimension_out_of_bounds
    else typed (size_constant (size_at (pos_part (to_int dim) - 1) (n ∷ size)))
visit_array_size _ dim = rejected not_applicable
