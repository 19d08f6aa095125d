-- ===== src/PrimReduction/Tests.antt =====
-- The reduction of constants, and the theorems on it, on examples.
use arrp.Common.{◌≡◌, refl}
use arrp.Common.Int.{pos, ◌+ℤ◌, ◌-ℤ◌, ◌*ℤ◌}
use arrp.Common.Ring.{opposite}
use arrp.Primitive.Op.{PrimitiveOp}
use arrp.Primitive.Order.{le, lt}
use arrp.Primitive.CommonType.{common_type, max_element}
use arrp.Primitive.ResultType.{result_type, rule_of, integer_result, common_integer}
use arrp.FuncType.{null}
use arrp.TypeCheck.Typed.{rejected, stopped}
use arrp.Functional.{Expr, int_const, reference, primitive, array_var, no_exprs, more_exprs}
use arrp.PrimReduction.{Gmp, finish, reduce_primitive, reduce_operands, visit}
use arrp.PrimReduction.Visited.{Keeps, type_expr, visit-Keeps}
use arrp.PrimReduction.Value.{truncated_div, GmpLaws, value}
use arrp.PrimReduction.Preserved.{HasValue, visit-HasValue}

abbrev numbers : Gmp
numbers = record {
  plus = λ a b. a +ℤ b;
  minus = λ a b. a -ℤ b;
  times = λ a b. a *ℤ b;
  negated = opposite;
  quotient = truncated_div;
}

numbers-GmpLaws : GmpLaws numbers
numbers-GmpLaws = record {
  plus_lem = λ a b. refl;
  minus_lem = λ a b. refl;
  times_lem = λ a b. refl;
  negated_lem = λ a. refl;
  quotient_lem = λ a b. refl;
}

-- i + (2 - 5) / 2
abbrev source : Expr
source =
    primitive PrimitiveOp.add
      (more_exprs (reference (array_var 0) null) (
        more_exprs
          (primitive PrimitiveOp.divide_integer
            (more_exprs
              (primitive PrimitiveOp.subtract
                (more_exprs (int_const (pos 2) null) (more_exprs (int_const (pos 5) null) no_exprs))
                null)
              (more_exprs (int_const (pos 2) null) no_exprs))
            null)
          no_exprs))
      null

-- A constant division by zero ends the program.
division_by_zero :
    visit numbers (
      primitive PrimitiveOp.divide_integer
        (more_exprs (int_const (pos 1) null) (more_exprs (int_const (pos 0) null) no_exprs))
        null)
    ≡ rejected stopped
unfolding visit finish reduce_primitive reduce_operands result_type rule_of integer_result
    common_integer common_type max_element le lt
division_by_zero = refl

visit-Keeps_example : Keeps (visit numbers source) (type_expr source)
visit-Keeps_example = visit-Keeps numbers source

visit-HasValue_example :
    HasValue numbers numbers-GmpLaws (λ _. pos 7) (visit numbers source) (pos 6)
unfolding value ◌+ℤ◌ ◌-ℤ◌ opposite
visit-HasValue_example = visit-HasValue numbers numbers-GmpLaws (λ _. pos 7) source (pos 6) refl
