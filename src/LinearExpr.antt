-- ===== src/LinearExpr.antt =====
-- frontend/linear_expr_gen.cpp and frontend/array_to_isl.cpp: index expressions, the check that they are affine, and
-- their translation to expressions of isl.
pub mod Value
pub mod Operation
pub mod Translated
pub mod Constraint
mod Tests
use arrp.Common.{ℕ, Bool, true, false, ◌&&◌, ◌||◌, if◌then◌else◌, List, [], ◌∷◌, Option, none, some}
use arrp.Common.Int.{ℤ}
use arrp.Common.Partial.{◌>>=◌}
use arrp.Primitive.Op.{PrimitiveOp}
use arrp.Functional.{
  Expr, Exprs, Var, int_const, bool_const, reference, primitive, other_expr, array_var, identifier,
  func_var, no_exprs, more_exprs,
}

pub data AffineExprType : Type 0 where
  affine_constant affine_variable : AffineExprType

abbrev pub is_affine_constant : AffineExprType → Bool
is_affine_constant affine_constant = true
is_affine_constant affine_variable = false

abbrev pub constant_if : Bool → AffineExprType
constant_if true = affine_constant
constant_if false = affine_variable

-- The switch of `ensure_expression_get_type`: the type of an operation, for those of its operands. `none` is the
-- error, or a missing operand.
unfoldable pub operation_type : PrimitiveOp → List AffineExprType → Option AffineExprType
operation_type PrimitiveOp.add (l ∷ r ∷ ts) =
    some (constant_if (is_affine_constant l && is_affine_constant r))
operation_type PrimitiveOp.subtract (l ∷ r ∷ ts) =
    some (constant_if (is_affine_constant l && is_affine_constant r))
operation_type PrimitiveOp.multiply (l ∷ r ∷ ts) =
    if is_affine_constant l || is_affine_constant r
    then some (constant_if (is_affine_constant l && is_affine_constant r))
    else none
operation_type PrimitiveOp.divide_integer (l ∷ r ∷ ts) =
    if is_affine_constant r then some (constant_if (is_affine_constant l)) else none
operation_type PrimitiveOp.modulo (l ∷ r ∷ ts) =
    if is_affine_constant r then some (constant_if (is_affine_constant l)) else none
operation_type _ _ = none

-- An identifier is replaced by its expression.
unfoldable mutual
  unfolding operation_type

  pub ensure_expression_get_type : Expr → Option (Expr × AffineExprType)
  ensure_expression_get_type (int_const v t) = some (int_const v t, affine_constant)
  ensure_expression_get_type (reference (array_var i) t) =
      some (reference (array_var i) t, affine_variable)
  ensure_expression_get_type (reference (identifier true e) t) = none
  ensure_expression_get_type (reference (identifier false e) t) = ensure_expression_get_type e
  ensure_expression_get_type (reference func_var t) = none
  ensure_expression_get_type (primitive op es t) =
      ensure_operands es >>= λ r. operation_type op r.1 >>= λ kind. some (primitive op r.0 t, kind)
  ensure_expression_get_type _ = none

  pub ensure_operands : Exprs → Option (Exprs × List AffineExprType)
  ensure_operands no_exprs = some (no_exprs, [])
  ensure_operands (more_exprs e es) = ensure_expression_get_type e >>= λ r.
      ensure_operands es >>= λ rs. some (more_exprs r.0 rs.0, r.1 ∷ rs.1)

unfoldable pub ensure_expression : Expr → Option Expr
ensure_expression e = ensure_expression_get_type e >>= λ r. some r.0

-- Expressions of isl over a space, which is not part of the repository. A division that gives nothing is an
-- error of isl.
pub record Isl (Aff : Type 0) : Type 0 where
  pub val : ℤ → Aff
  pub dim : ℕ → Aff
  pub plus : Aff → Aff → Aff
  pub minus : Aff → Aff → Aff
  pub negated : Aff → Aff
  pub scale : ℤ → Aff → Aff
  pub floor_over : Aff → ℤ → Option Aff
  pub mod_over : Aff → ℤ → Option Aff
  pub is_constant : Aff → Bool
  pub constant : Aff → ℤ

module _ {Aff : Type 0} (isl : Isl Aff) where
  -- The cases of the switch; each of the last three falls through to the next.
  abbrev pub modulo_case : Aff → Aff → Option Aff
  modulo_case l r = if isl.is_constant r then isl.mod_over l (isl.constant r) else none

  abbrev pub divide_case : Aff → Aff → Option Aff
  divide_case l r = if isl.is_constant r then isl.floor_over l (isl.constant r) else modulo_case l r

  abbrev pub multiply_case : Aff → Aff → Option Aff
  multiply_case l r =
      if isl.is_constant l
      then some (isl.scale (isl.constant l) r)
      else if isl.is_constant r
      then some (isl.scale (isl.constant r) l)
      else divide_case l r

  -- The switch, for the translated operands.
  unfoldable pub operation_expr : PrimitiveOp → List Aff → Option Aff
  operation_expr PrimitiveOp.add (l ∷ r ∷ rest) = some (isl.plus l r)
  operation_expr PrimitiveOp.subtract (l ∷ r ∷ rest) = some (isl.minus l r)
  operation_expr PrimitiveOp.negate (l ∷ rest) = some (isl.negated l)
  operation_expr PrimitiveOp.multiply (l ∷ r ∷ rest) = multiply_case l r
  operation_expr PrimitiveOp.divide_integer (l ∷ r ∷ rest) = divide_case l r
  operation_expr PrimitiveOp.modulo (l ∷ r ∷ rest) = modulo_case l r
  operation_expr _ _ = none

-- `get_si` is the one of GMP, and `index_of` the place of a variable in the space, if it has one.
module _ {Aff : Type 0} (isl : Isl Aff) (get_si : ℤ → ℤ) (index_of : ℕ → Option ℕ) where
  unfoldable mutual
    unfolding operation_expr

    pub to_affine_expr : Expr → Option Aff
    to_affine_expr (int_const v t) = some (isl.val (get_si v))
    to_affine_expr (reference (array_var i) t) = index_of i >>= λ d. some (isl.dim d)
    to_affine_expr (reference (identifier false e) t) = to_affine_expr e
    to_affine_expr (primitive op es t) = to_affine_operands es >>= operation_expr isl op
    to_affine_expr _ = none

    pub to_affine_operands : Exprs → Option (List Aff)
    to_affine_operands no_exprs = some []
    to_affine_operands (more_exprs e es) =
        to_affine_expr e >>= λ a. to_affine_operands es >>= λ rest. some (a ∷ rest)
