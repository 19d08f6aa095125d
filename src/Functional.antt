-- ===== src/Functional.antt =====
-- common/functional_model.hpp: the expressions of the language, as far as the passes on index expressions and on
-- constants read them. Locations are left out.
use arrp.Common.{ℕ, Bool}
use arrp.Common.Int.{ℤ}
use arrp.Primitive.{boolean}
use arrp.Primitive.Op.{PrimitiveOp}
use arrp.FuncType.{TypePtr, scalar_type, to}

-- An array variable is a number. An identifier stands with whether it is recursive and its expression.
mutual
  pub data Expr : Type 0 where
    int_const : ℤ → TypePtr → Expr
    bool_const : Bool → Expr
    reference : Var → TypePtr → Expr
    primitive : PrimitiveOp → Exprs → TypePtr → Expr
    other_expr : TypePtr → Expr

  pub data Var : Type 0 where
    array_var : ℕ → Var
    identifier : Bool → Expr → Var
    func_var : Var

  pub data Exprs : Type 0 where
    no_exprs : Exprs
    more_exprs : Expr → Exprs → Exprs

-- `expression::type`.
abbrev pub type_of : Expr → TypePtr
type_of (int_const v t) = t
type_of (bool_const b) = to (scalar_type boolean)
type_of (reference v t) = t
type_of (primitive op es t) = t
type_of (other_expr t) = t
