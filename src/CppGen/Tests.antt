-- ===== src/CppGen/Tests.antt =====
-- Expressions and statements as they are written, and the theorems on them, on examples.
use arrp.Common.{◌≡◌, refl, true, false, [], ◌∷◌, none, some}
use arrp.CppGen.{mult, add, sub, u_minus}
use arrp.CppGen.Expression.{
  base_type, basic_type, text, Expr, id_expression, literal_expression, bin_op_expression,
  un_op_expression, generate,
}
use arrp.CppGen.Statement.{Stmt, if_statement, expr_statement, no_stmt, no_stmts, more_stmts}
use arrp.CppGen.Module.{
  Members, namespace_node, class_node, class_class, public_access, using_decl, func_def, no_members,
  more_members, no_sections, more_sections, class_parameters, func_parameters,
}

-- (x + 1) * -y
abbrev product : Expr
product =
    bin_op_expression mult (bin_op_expression add (id_expression "x") (literal_expression "1"))
      (un_op_expression u_minus (id_expression "y"))

product_text :
    generate product
    ≡ text "(" ∷ text "x" ∷ text "+" ∷ text "1" ∷ text ")" ∷ text "*" ∷ text "-" ∷ text "y" ∷ []
unfolding generate
product_text = refl

-- x - (-1), where the literal is negative: the minus signs stand side by side.
two_signs :
    generate (bin_op_expression sub (id_expression "x") (literal_expression "-1"))
    ≡ text "x" ∷ text "-" ∷ text "-1" ∷ []
unfolding generate
two_signs = refl

abbrev nested_if : Stmt
nested_if = if_statement product (if_statement product (expr_statement product) no_stmt) no_stmt

-- A class with a public section, and a function with the statement.
abbrev test_module : Members
test_module =
    more_members
      (namespace_node (some "test") (
        more_members
          (class_node class_class ("A" ∷ "B" ∷ []) none (some "C")
            (more_sections public_access (more_members (using_decl "D") no_members) no_sections))
          (more_members
            (func_def false
              (record {
                is_inline = true;
                name = some "f";
                type = base_type (basic_type "int" false);
                template_parameters = "A" ∷ "B" ∷ [];
                parameters = [];
              })
              (more_stmts nested_if no_stmts))
            no_members)))
      no_members

-- Two template parameters of a class, and of a function.
class_comma :
    class_parameters 0 ("A" ∷ "B" ∷ [])
    ≡ text "typename " ∷ text "A" ∷ text ", " ∷ text "typename " ∷ text "B" ∷ []
unfolding class_parameters
class_comma = refl

func_comma :
    func_parameters 0 ("A" ∷ "B" ∷ [])
    ≡ text "typename " ∷ text "A" ∷ text "typename " ∷ text "B" ∷ []
unfolding func_parameters
func_comma = refl
