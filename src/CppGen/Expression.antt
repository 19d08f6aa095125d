-- ===== src/CppGen/Expression.antt =====
-- utility/cpp-gen.hpp and utility/cpp-gen.cpp: types and expressions of C++, and how they are written.
use Prim.Native.String.{String}
use arrp.Common.{ℕ, not, Bool, true, false, List, [], ◌∷◌, ◌++◌, Option, none, some}
use arrp.Common.Int.{ℤ, pos, ltb_ℤ}
use arrp.CppGen.{Op, op_precedence, op_text, array_subscript, cast, function_call}

-- What is written to the stream at once: a text, or the end of a line with the level of indentation of the next one.
pub data Piece : Type 0 where
  text : String → Piece
  new_line : ℕ → Piece

pub data BaseType : Type 0 where
  basic_type : String → Bool → BaseType
  pointer_type : BaseType → Bool → BaseType
  array_type : BaseType → String → BaseType

pub data CppType : Type 0 where
  base_type : BaseType → CppType
  reference_type_node : BaseType → CppType

-- `if (is_const) stream << " const"`.
abbrev const_text : Bool → List Piece
const_text true = text " const" ∷ []
const_text false = []

unfoldable pub generate_base : BaseType → List Piece
generate_base (basic_type name is_const) = text name ∷ const_text is_const
generate_base (pointer_type base is_const) =
    generate_base base ++ const_text is_const ++ text " *" ∷ []
generate_base (array_type base size) = generate_base base ++ text "[" ∷ text size ∷ text "]" ∷ []

unfoldable pub generate_type : CppType → List Piece
generate_type (base_type base) = generate_base base
generate_type (reference_type_node base) = generate_base base ++ text " &" ∷ []

-- A literal is the text that the standard library writes for it.
mutual
  pub data Expr : Type 0 where
    literal_expression id_expression : String → Expr
    un_op_expression : Op → Expr → Expr
    bin_op_expression : Op → Expr → Expr → Expr
    if_expression : Expr → Expr → Expr → Expr
    call_expression : Expr → Exprs → Expr
    var_decl_expression : VariableDecl → Expr
    cast_expression : CppType → Expr → Expr
    array_access_expression : Expr → Exprs → Expr

  pub data Exprs : Type 0 where
    no_exprs : Exprs
    more_exprs : Expr → Exprs → Exprs

  -- The alignment is the text of the number, if it is not 0; an empty name is `none`.
  pub data VariableDecl : Type 0 where
    variable_decl : Option String → CppType → Option String → OptExpr → VariableDecl

  pub data OptExpr : Type 0 where
    no_expr : OptExpr
    some_expr : Expr → OptExpr

abbrev pub precedence : Expr → ℤ
precedence (un_op_expression op r) = op_precedence op
precedence (bin_op_expression op l r) = op_precedence op
precedence (array_access_expression id index) = op_precedence array_subscript
precedence (cast_expression t e) = op_precedence cast
precedence _ = pos 0

-- `<=`.
abbrev pub should_wrap_rhs_subexpr : Op → Expr → Bool
should_wrap_rhs_subexpr op e = not (ltb_ℤ (op_precedence op) (precedence e))

abbrev pub should_wrap_lhs_subexpr : Op → Expr → Bool
should_wrap_lhs_subexpr op e = ltb_ℤ (precedence e) (op_precedence op)

-- `generate_subexpr`, for what the subexpression writes.
abbrev pub wrapped : Bool → List Piece → List Piece
wrapped true ps = text "(" ∷ ps ++ text ")" ∷ []
wrapped false ps = ps

abbrev alignment_pieces : Option String → List Piece
alignment_pieces none = []
alignment_pieces (some n) = text "alignas(" ∷ text n ∷ text ") " ∷ []

abbrev name_pieces : Option String → List Piece
name_pieces none = []
name_pieces (some name) = text " " ∷ text name ∷ []

unfoldable mutual
  unfolding generate_type

  pub generate : Expr → List Piece
  generate (literal_expression t) = text t ∷ []
  generate (id_expression name) = text name ∷ []
  generate (un_op_expression op r) =
      text (op_text op) ∷ wrapped (should_wrap_rhs_subexpr op r) (generate r)
  generate (bin_op_expression op l r) =
      wrapped (should_wrap_lhs_subexpr op l) (generate l)
      ++ text (op_text op) ∷ wrapped (should_wrap_rhs_subexpr op r) (generate r)
  generate (if_expression c t e) =
      text "(" ∷ generate c
      ++ (text " ? " ∷ generate t ++ (text " : " ∷ generate e ++ text ")" ∷ []))
  generate (call_expression f args) =
      wrapped (should_wrap_lhs_subexpr function_call f) (generate f)
      ++ (text "(" ∷ generate_args args ++ text ")" ∷ [])
  generate (var_decl_expression d) = generate_decl d
  generate (cast_expression t e) =
      text "(" ∷ generate_type t
      ++ (text ")" ∷ wrapped (should_wrap_rhs_subexpr cast e) (generate e))
  generate (array_access_expression id index) =
      wrapped (should_wrap_lhs_subexpr array_subscript id) (generate id) ++ generate_index index

  pub generate_decl : VariableDecl → List Piece
  generate_decl (variable_decl alignment t name value) =
      alignment_pieces alignment ++ (generate_type t ++ (name_pieces name ++ value_pieces value))

  pub value_pieces : OptExpr → List Piece
  value_pieces no_expr = []
  value_pieces (some_expr v) = text " = " ∷ generate v

  -- The loop over the arguments, with a comma before each but the first.
  pub generate_args : Exprs → List Piece
  generate_args no_exprs = []
  generate_args (more_exprs e es) = generate e ++ generate_more es

  pub generate_more : Exprs → List Piece
  generate_more no_exprs = []
  generate_more (more_exprs e es) = text ", " ∷ generate e ++ generate_more es

  pub generate_index : Exprs → List Piece
  generate_index no_exprs = []
  generate_index (more_exprs e es) = text "[" ∷ generate e ++ (text "]" ∷ generate_index es)
