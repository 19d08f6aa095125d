-- ===== src/CppGen/Grammar.antt =====
-- The grammar of the expressions of C++, by the levels of its operators, and what cpp-gen.cpp writes.
pub mod Levels
pub mod Written
use Prim.Native.String.{String}
use Prim.Native.Char.{code}
use arrp.Common.{
  ℕ, suc, ◌≤◌, ◌==◌, ◌≡◌, Bool, true, false, if◌then◌else◌, ◌⊎◌, List, [], ◌∷◌, ◌++◌, Option, none,
  some,
}
use arrp.CppGen.{
  Op, op_text, pre_incr, pre_decr, u_plus, u_minus, logic_neg, bit_neg, dereference, address, mult,
  div, rem, add, sub, bit_left, bit_right, lesser, lesser_or_equal, greater, greater_or_equal,
  equal, not_equal, bit_and, bit_xor, bit_or, logic_and, logic_or, assign, assign_add, assign_sub,
  assign_mult, assign_div, assign_rem,
}
use arrp.CppGen.Expression.{
  Piece, text, CppType, generate_type, Expr, Exprs, literal_expression, id_expression,
  un_op_expression, bin_op_expression, if_expression, call_expression, cast_expression,
  array_access_expression, var_decl_expression, no_exprs, more_exprs, should_wrap_rhs_subexpr,
  wrapped, generate,
}

-- The operators that stand before their operand.
abbrev pub is_prefix : Op → Bool
is_prefix pre_incr = true
is_prefix pre_decr = true
is_prefix u_plus = true
is_prefix u_minus = true
is_prefix logic_neg = true
is_prefix bit_neg = true
is_prefix dereference = true
is_prefix address = true
is_prefix op = false

-- The operators of two operands that associate to the left, by the level of their right operand: from the
-- multiplicative ones on to the logical or.
abbrev pub binary_level : Op → Option ℕ
binary_level mult = some 3
binary_level div = some 3
binary_level rem = some 3
binary_level add = some 4
binary_level sub = some 4
binary_level bit_left = some 5
binary_level bit_right = some 5
binary_level lesser = some 6
binary_level lesser_or_equal = some 6
binary_level greater = some 6
binary_level greater_or_equal = some 6
binary_level equal = some 7
binary_level not_equal = some 7
binary_level bit_and = some 8
binary_level bit_xor = some 9
binary_level bit_or = some 10
binary_level logic_and = some 11
binary_level logic_or = some 12
binary_level op = none

abbrev pub is_assignment : Op → Bool
is_assignment assign = true
is_assignment assign_add = true
is_assignment assign_sub = true
is_assignment assign_mult = true
is_assignment assign_div = true
is_assignment assign_rem = true
is_assignment op = false

abbrev pub starts_with : ℕ → String → Bool
starts_with n String.[] = false
starts_with n (String.◌∷◌ c s) = code c == n

-- The operator and the text behind it would be read as another token, such as `--`, or as a comment.
abbrev pub merges : Op → String → Bool
merges sub s = starts_with b'-' s
merges u_minus s = starts_with b'-' s
merges add s = starts_with b'+' s
merges u_plus s = starts_with b'+' s
merges bit_and s = starts_with b'&' s
merges address s = starts_with b'&' s
merges div s = starts_with b'*' s
merges op s = false

abbrev pub Apart : Op → List Piece → Type 0
Apart op (text s ∷ ps) = merges op s ≡ false
Apart op ps = Unit

-- `Derives l ps e`: the pieces are a parse of e with operators up to level l. Level 0 is a primary expression,
-- 2 a postfix expression, 3 a unary one, 13 a logical-or-expression and 14 an assignment-expression.
mutual
  pub data Derives : ℕ → List Piece → Expr → Type 0 where
    literal :
        (t : String) → starts_with b'-' t ≡ false → Derives 0 (text t ∷ []) (literal_expression t)
    -- A number with a sign is a unary expression.
    negative :
        (t : String) → starts_with b'-' t ≡ true → Derives 3 (text t ∷ []) (literal_expression t)
    name : (x : String) → Derives 0 (text x ∷ []) (id_expression x)
    parens :
        {ps : List Piece} {e : Expr}
        → Derives 14 ps e
        → Derives 0 (text "(" ∷ ps ++ text ")" ∷ []) e
    lift : {l : ℕ} {ps : List Piece} {e : Expr} → Derives l ps e → Derives (suc l) ps e
    prefix :
        {op : Op} {ps : List Piece} {e : Expr}
        → is_prefix op ≡ true
        → Apart op ps
        → Derives 3 ps e
        → Derives 3 (text (op_text op) ∷ ps) (un_op_expression op e)
    binary :
        {op : Op} {l : ℕ} {ps qs : List Piece} {e f : Expr}
        → binary_level op ≡ some l
        → Apart op qs
        → Derives (suc l) ps e
        → Derives l qs f
        → Derives (suc l) (ps ++ text (op_text op) ∷ qs) (bin_op_expression op e f)
    assignment :
        {op : Op} {ps qs : List Piece} {e f : Expr}
        → is_assignment op ≡ true
        → Derives 13 ps e
        → Derives 14 qs f
        → Derives 14 (ps ++ text (op_text op) ∷ qs) (bin_op_expression op e f)
    choice :
        {ps qs rs : List Piece} {c t e : Expr}
        → Derives 13 ps c
        → Derives 14 qs t
        → Derives 14 rs e
        → Derives 14 (ps ++ (text " ? " ∷ qs ++ (text " : " ∷ rs))) (if_expression c t e)
    call :
        {ps qs : List Piece} {f : Expr} {args : Exprs}
        → Derives 2 ps f
        → DerivesArgs qs args
        → Derives 2 (ps ++ (text "(" ∷ qs ++ text ")" ∷ [])) (call_expression f args)
    casting :
        (t : CppType) {ps : List Piece} {e : Expr}
        → Derives 3 ps e
        → Derives 3 (text "(" ∷ generate_type t ++ (text ")" ∷ ps)) (cast_expression t e)
    access :
        {ps qs : List Piece} {a i : Expr} {is : Exprs}
        → Derives 2 ps a
        → DerivesIndex qs (more_exprs i is)
        → Derives 2 (ps ++ qs) (array_access_expression a (more_exprs i is))

  pub data DerivesArgs : List Piece → Exprs → Type 0 where
    no_args : DerivesArgs [] no_exprs
    args :
        {ps qs : List Piece} {e : Expr} {es : Exprs}
        → Derives 14 ps e
        → DerivesMore qs es
        → DerivesArgs (ps ++ qs) (more_exprs e es)

  pub data DerivesMore : List Piece → Exprs → Type 0 where
    no_more : DerivesMore [] no_exprs
    more :
        {ps qs : List Piece} {e : Expr} {es : Exprs}
        → Derives 14 ps e
        → DerivesMore qs es
        → DerivesMore (text ", " ∷ ps ++ qs) (more_exprs e es)

  pub data DerivesIndex : List Piece → Exprs → Type 0 where
    no_index : DerivesIndex [] no_exprs
    index :
        {ps qs : List Piece} {e : Expr} {es : Exprs}
        → Derives 14 ps e
        → DerivesIndex qs es
        → DerivesIndex (text "[" ∷ ps ++ (text "]" ∷ qs)) (more_exprs e es)

abbrev pub is_negative : Expr → Bool
is_negative (literal_expression t) = starts_with b'-' t
is_negative e = false

abbrev pub level_above : Option ℕ → ℕ
level_above (some l) = suc l
level_above none = 14

-- The level that an expression is written at.
abbrev pub level_of : Expr → ℕ
level_of (literal_expression t) = if starts_with b'-' t then 3 else 0
level_of (id_expression x) = 0
level_of (if_expression c t e) = 0
level_of (call_expression f es) = 2
level_of (array_access_expression a is) = 2
level_of (cast_expression t e) = 3
level_of (un_op_expression op e) = 3
level_of (bin_op_expression op e f) = level_above (binary_level op)
level_of (var_decl_expression d) = 0

abbrev pub HasIndex : Exprs → Type 0
HasIndex no_exprs = ⊥
HasIndex (more_exprs e es) = Unit

-- What is written for the right operand of an operator.
abbrev pub written_rhs : Op → Expr → List Piece
written_rhs op e = wrapped (should_wrap_rhs_subexpr op e) (generate e)

-- Where each operator stands as it may: with an operand before it, two, or a left side that is no assignment; where
-- no operator merges with what is written behind it; where each access has an index, what is called or accessed
-- is no negative number, and no variable is declared.
abbrev mutual
  pub IsWellFormed : Expr → Type 0
  IsWellFormed (literal_expression t) = Unit
  IsWellFormed (id_expression x) = Unit
  IsWellFormed (un_op_expression op e) =
      (is_prefix op ≡ true) × Apart op (written_rhs op e) × IsWellFormed e
  IsWellFormed (bin_op_expression op e f) =
      (((l : ℕ) × (binary_level op ≡ some l) × Apart op (written_rhs op f))
        ⊎ ((is_assignment op ≡ true) × (level_of e ≤ 13)))
      × IsWellFormed e
      × IsWellFormed f
  IsWellFormed (if_expression c t e) =
      IsWellFormed c × IsWellFormed t × IsWellFormed e × (level_of c ≤ 13)
  IsWellFormed (call_expression f es) = IsWellFormed f × (is_negative f ≡ false) × AreWellFormed es
  IsWellFormed (cast_expression t e) = IsWellFormed e
  IsWellFormed (array_access_expression a is) =
      IsWellFormed a × (is_negative a ≡ false) × AreWellFormed is × HasIndex is
  IsWellFormed (var_decl_expression d) = ⊥

  pub AreWellFormed : Exprs → Type 0
  AreWellFormed no_exprs = Unit
  AreWellFormed (more_exprs e es) = IsWellFormed e × AreWellFormed es
