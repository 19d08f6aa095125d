-- ===== src/PrimReduction.antt =====
-- frontend/prim_reduction.cpp, and its use in frontend/type_check.cpp: operations on integer constants are replaced by
-- their results while the types of expressions are found.
pub mod Types
pub mod Visited
pub mod Value
pub mod Preserved
mod Tests
use arrp.Common.{ℕ, Bool, true, false, List, [], ◌∷◌, Option, none, some}
use arrp.Common.Int.{ℤ}
use arrp.Primitive.{PrimitiveType, int32, boolean}
use arrp.Primitive.Op.{PrimitiveOp}
use arrp.Primitive.ResultType.{result_type}
use arrp.FuncType.{FuncType, TypePtr, null, to, scalar_type, array_type, function_type, meta_type}
use arrp.TypeCheck.Typed.{TypeError, Typed, typed, rejected, ◌>>=◌, null_type, stopped}
use arrp.TypeCheck.Primitive.{visit_primitive}
use arrp.Functional.{
  Expr, Exprs, Var, int_const, bool_const, reference, primitive, other_expr, array_var, identifier,
  func_var, no_exprs, more_exprs, type_of,
}

-- Integers of GMP, which is not part of the repository. A division that gives nothing ends the program.
pub record Gmp : Type 0 where
  pub plus : ℤ → ℤ → ℤ
  pub minus : ℤ → ℤ → ℤ
  pub times : ℤ → ℤ → ℤ
  pub negated : ℤ → ℤ
  pub quotient : ℤ → ℤ → Option ℤ

-- `op` as it is, a constant with its type, or the end of the program.
pub data Reduced : Type 0 where
  unchanged : Reduced
  constant : ℤ → PrimitiveType → Reduced
  ended : Reduced

abbrev pub scalar_primitive : TypePtr → Option PrimitiveType
scalar_primitive (to (scalar_type p)) = some p
scalar_primitive _ = none

abbrev pub prepend :
    Option PrimitiveType → Option (List PrimitiveType) → Option (List PrimitiveType)
prepend (some p) (some ps) = some (p ∷ ps)
prepend _ _ = none

-- The loop over the operands; `none` where the operation is returned as it is.
abbrev pub scalar_types : Exprs → Option (List PrimitiveType)
scalar_types no_exprs = some []
scalar_types (more_exprs e es) = prepend (scalar_primitive (type_of e)) (scalar_types es)

-- `to_i`; `none` is `undefined_value`.
abbrev pub to_i : Expr → Option ℤ
to_i (int_const v t) = some v
to_i _ = none

-- `c_i`, of a result.
abbrev pub c_i : Option ℤ → PrimitiveType → Reduced
c_i (some v) t = constant v t
c_i none t = ended

abbrev pub combine : (ℤ → ℤ → Option ℤ) → Option ℤ → Option ℤ → PrimitiveType → Reduced
combine f (some a) (some b) t = c_i (f a b) t
combine f _ _ t = unchanged

abbrev pub apply_to : (ℤ → ℤ) → Option ℤ → PrimitiveType → Reduced
apply_to f (some a) t = constant (f a) t
apply_to f none t = unchanged

-- The switch. A type of the result comes with as many operands as the operation has.
unfoldable pub reduce_operands : Gmp → PrimitiveOp → Exprs → PrimitiveType → Reduced
reduce_operands gmp PrimitiveOp.add (more_exprs a (more_exprs b es)) t =
    combine (λ v w. some (gmp.plus v w)) (to_i a) (to_i b) t
reduce_operands gmp PrimitiveOp.subtract (more_exprs a (more_exprs b es)) t =
    combine (λ v w. some (gmp.minus v w)) (to_i a) (to_i b) t
reduce_operands gmp PrimitiveOp.multiply (more_exprs a (more_exprs b es)) t =
    combine (λ v w. some (gmp.times v w)) (to_i a) (to_i b) t
reduce_operands gmp PrimitiveOp.divide_integer (more_exprs a (more_exprs b es)) t =
    combine gmp.quotient (to_i a) (to_i b) t
reduce_operands gmp PrimitiveOp.negate (more_exprs a es) t = apply_to gmp.negated (to_i a) t
reduce_operands gmp _ _ t = unchanged

abbrev pub reduce_result : Gmp → PrimitiveOp → Exprs → Option PrimitiveType → Reduced
reduce_result gmp op es none = unchanged
reduce_result gmp op es (some t) = reduce_operands gmp op es t

abbrev pub reduce_typed : Gmp → PrimitiveOp → Exprs → Option (List PrimitiveType) → Reduced
reduce_typed gmp op es none = unchanged
reduce_typed gmp op es (some arg_types) = reduce_result gmp op es (result_type op arg_types)

unfoldable pub reduce_primitive : Gmp → PrimitiveOp → Exprs → Reduced
reduce_primitive gmp op es = reduce_typed gmp op es (scalar_types es)

-- `*type`.
abbrev pub target : TypePtr → Typed FuncType
target null = rejected null_type
target (to t) = typed t

abbrev pub targets : Exprs → Typed (List FuncType)
targets no_exprs = typed []
targets (more_exprs e es) = target (type_of e) >>= λ t. targets es >>= λ ts. typed (t ∷ ts)

abbrev pub int_type : TypePtr
int_type = to (scalar_type int32)

-- `visit_primitive` behind the visits of the operands. A reduced operation is a constant that has its type.
unfoldable pub finish : PrimitiveOp → Exprs → Reduced → Typed Expr
finish op es (constant v t) = typed (int_const v (to (scalar_type t)))
finish op es ended = rejected stopped
finish op es unchanged = (targets es >>= visit_primitive op) >>= λ t. typed (primitive op es (to t))

-- The visits of constants, array variables and operations. Other expressions keep the type that they have
-- to have.
unfoldable mutual
  unfolding reduce_primitive finish

  pub visit : Gmp → Expr → Typed Expr
  visit gmp (int_const v null) = typed (int_const v int_type)
  visit gmp (reference (array_var i) t) = typed (reference (array_var i) int_type)
  visit gmp (primitive op es t) =
      visit_exprs gmp es >>= λ es'. finish op es' (reduce_primitive gmp op es')
  visit gmp e = target (type_of e) >>= λ _. typed e

  pub visit_exprs : Gmp → Exprs → Typed Exprs
  visit_exprs gmp no_exprs = typed no_exprs
  visit_exprs gmp (more_exprs e es) =
      visit gmp e >>= λ e'. visit_exprs gmp es >>= λ es'. typed (more_exprs e' es')
