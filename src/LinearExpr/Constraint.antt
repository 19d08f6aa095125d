-- ===== src/LinearExpr/Constraint.antt =====
-- frontend/linear_expr_gen.cpp and frontend/array_to_isl.cpp: constraints on array variables, the check that they are
-- affine, and their translation to sets of isl.
pub mod Members
use arrp.Common.{ℕ, Bool, true, false, not, ◌&&◌, ◌||◌, Option, none, some}
use arrp.Common.Int.{ℤ, ltb_ℤ}
use arrp.Common.Partial.{◌>>=◌}
use arrp.Primitive.Op.{PrimitiveOp}
use arrp.FuncType.{same_int, TypePtr}
use arrp.Functional.{Expr, bool_const, primitive, no_exprs, more_exprs}
use arrp.LinearExpr.{ensure_expression, Isl, to_affine_expr}

pub data Comparison : Type 0 where
  equal not_equal less greater less_or_equal greater_or_equal : Comparison

pub data Connective : Type 0 where
  conjunction disjunction : Connective

-- The cases of the two switches.
pub data ConstraintOp : Type 0 where
  comparison : Comparison → ConstraintOp
  negation : ConstraintOp
  connective : Connective → ConstraintOp
  no_constraint : ConstraintOp

abbrev pub constraint_op : PrimitiveOp → ConstraintOp
constraint_op PrimitiveOp.compare_eq = comparison equal
constraint_op PrimitiveOp.compare_neq = comparison not_equal
constraint_op PrimitiveOp.compare_l = comparison less
constraint_op PrimitiveOp.compare_g = comparison greater
constraint_op PrimitiveOp.compare_leq = comparison less_or_equal
constraint_op PrimitiveOp.compare_geq = comparison greater_or_equal
constraint_op PrimitiveOp.negate = negation
constraint_op PrimitiveOp.logic_and = connective conjunction
constraint_op PrimitiveOp.logic_or = connective disjunction
constraint_op _ = no_constraint

-- Two results together; `none` is an error.
abbrev pub both {ℓ κ} : {A : Type ℓ} {B : Type κ} → Option A → Option A → (A → A → B) → Option B
both m n f = m >>= λ a. n >>= λ b. some (f a b)

-- What the switches choose for an operation of one operand, and for one of two: for a comparison, and for a
-- connective. Another number of operands fails an assertion.
abbrev pub unary_case {ℓ} : {A : Type ℓ} → ConstraintOp → Option A → Option A
unary_case negation m = m
unary_case _ m = none

abbrev pub binary_case {ℓ} :
    {A : Type ℓ} → ConstraintOp → (Comparison → Option A) → (Connective → Option A) → Option A
binary_case (comparison c) m n = m c
binary_case (connective c) m n = n c
binary_case _ m n = none

abbrev pub binary_expr : PrimitiveOp → TypePtr → Expr → Expr → Expr
binary_expr op t a b = primitive op (more_exprs a (more_exprs b no_exprs)) t

-- `ensure_contraint`.
unfoldable pub ensure_constraint : Expr → Option Expr
ensure_constraint (bool_const b) = some (bool_const b)
ensure_constraint (primitive op (more_exprs a no_exprs) t) =
    unary_case (constraint_op op)
      (ensure_constraint a >>= λ a'. some (primitive op (more_exprs a' no_exprs) t))
ensure_constraint (primitive op (more_exprs a (more_exprs b no_exprs)) t) =
    let rest = both (ensure_constraint a) (ensure_constraint b) (binary_expr op t) in
    binary_case (constraint_op op)
      (λ c. both (ensure_expression a) (ensure_expression b) (binary_expr op t)) (λ c. rest)
ensure_constraint _ = none

-- Sets of isl over a space. `related c a b` is the universe with the constraint that a and b compare by c.
pub record IslSet (Aff Set : Type 0) : Type 0 where
  pub universe : Set
  pub empty : Set
  pub related : Comparison → Aff → Aff → Set
  pub complement : Set → Set
  pub intersection : Set → Set → Set
  pub union : Set → Set → Set

module _ {Aff Set : Type 0} (isl : Isl Aff) (sets : IslSet Aff Set) (get_si : ℤ → ℤ)
    (index_of : ℕ → Option ℕ) where
  -- `!=` is the complement of a set with an equation.
  abbrev pub compared : Comparison → Aff → Aff → Set
  compared not_equal a b = sets.complement (sets.related equal a b)
  compared c a b = sets.related c a b

  abbrev pub connected : Connective → Set → Set → Set
  connected conjunction s t = sets.intersection s t
  connected disjunction s t = sets.union s t

  unfoldable pub to_affine_set : Expr → Option Set
  to_affine_set (bool_const true) = some sets.universe
  to_affine_set (bool_const false) = some sets.empty
  to_affine_set (primitive op (more_exprs a no_exprs) t) =
      unary_case (constraint_op op) (to_affine_set a >>= λ s. some (sets.complement s))
  to_affine_set (primitive op (more_exprs a (more_exprs b no_exprs)) t) =
      let l = to_affine_set a in
      let r = to_affine_set b in
      binary_case (constraint_op op)
        (λ c.
          both (to_affine_expr isl get_si index_of a) (to_affine_expr isl get_si index_of b)
            (compared c))
        (λ c. both l r (connected c))
  to_affine_set _ = none
