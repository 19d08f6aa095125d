-- ===== src/CppGen/Grammar/Levels.antt =====
-- The levels of expressions of C++, and subexpressions in parentheses.
use arrp.Common.{
  ℕ, zero, suc, ◌+◌, ◌-◌, ◌≤◌, max, ◌≡◌, refl, subst, Bool, not, true, false, inl, inr, List, none,
  some, arith,
}
use arrp.Common.Int.{ℤ, negsuc, ltb_ℤ, pos_part, neg_part}
use arrp.CppGen.{Op, rank}
use arrp.CppGen.Expression.{
  Piece, Expr, literal_expression, id_expression, un_op_expression, bin_op_expression,
  if_expression, call_expression, cast_expression, array_access_expression, var_decl_expression,
  precedence, should_wrap_rhs_subexpr, should_wrap_lhs_subexpr, wrapped,
}
use arrp.CppGen.Grammar.{
  is_prefix, binary_level, is_assignment, is_negative, Derives, parens, lift, level_of,
  IsWellFormed,
}

pub lift_by : (k : ℕ) {l : ℕ} {ps : List Piece} {e : Expr} → Derives l ps e → Derives (k + l) ps e
lift_by zero {l} {ps} {e} d = subst (λ n. Derives n ps e) (zero_plus l) d
  where
    zero_plus : (l : ℕ) → l ≡ 0 + l
    zero_plus l = omega arith
lift_by (suc k) {l} {ps} {e} d = subst (λ n. Derives n ps e) (suc_plus k l) (lift (lift_by k d))
  where
    suc_plus : (k l : ℕ) → suc (k + l) ≡ suc k + l
    suc_plus k l = omega arith

pub lift_to : {l m : ℕ} {ps : List Piece} {e : Expr} → l ≤ m → Derives l ps e → Derives m ps e
lift_to {l} {m} {ps} {e} h d = subst (λ n. Derives n ps e) (down l m h) (lift_by (m - l) d)
  where
    down : (l m : ℕ) → l ≤ m → m - l + l ≡ m
    down l m h = omega arith

pub prefix_rank : (op : Op) → is_prefix op ≡ true → rank op ≡ 2
prefix_rank op h = ground arith

pub binary_rank : (op : Op) (l : ℕ) → binary_level op ≡ some l → (rank op ≡ l) × (3 ≤ l) × (l ≤ 12)
binary_rank op l h = ground arith

pub assignment_rank :
    (op : Op) → is_assignment op ≡ true → (rank op ≡ 13) × (binary_level op ≡ none)
assignment_rank op h = ground arith

-- The level is read off the precedence behind the unary operators.
level_of-precedence :
    (e : Expr)
    → IsWellFormed e
    → (level_of e ≤ max 3 (neg_part (precedence e))) × (pos_part (precedence e) ≡ 0)
level_of-precedence (literal_expression t) w = (ground arith, refl)
level_of-precedence (id_expression x) w = (omega arith, refl)
level_of-precedence (if_expression c t e) w = (omega arith, refl)
level_of-precedence (call_expression f es) w = (omega arith, refl)
level_of-precedence (array_access_expression a is) w = (omega arith, refl)
level_of-precedence (cast_expression t e) w = (omega arith, refl)
level_of-precedence (un_op_expression op e) w = (omega arith, refl)
level_of-precedence (bin_op_expression op e f) (inl (l, h, apart), v, w) =
    let (same, low, high) = binary_rank op l h in (rw h (omega arith), refl)
level_of-precedence (bin_op_expression op e f) (inr (h, small), v, w) =
    let (last, no_level) = assignment_rank op h in (rw no_level (omega arith), refl)
level_of-precedence (var_decl_expression d) w = absurd w

pub level_of_le : (e : Expr) → IsWellFormed e → level_of e ≤ 14
level_of_le (literal_expression t) w = ground arith
level_of_le (id_expression x) w = omega arith
level_of_le (if_expression c t e) w = omega arith
level_of_le (call_expression f es) w = omega arith
level_of_le (array_access_expression a is) w = omega arith
level_of_le (cast_expression t e) w = omega arith
level_of_le (un_op_expression op e) w = omega arith
level_of_le (bin_op_expression op e f) (inl (l, h, apart), v, w) =
    let (same, low, high) = binary_rank op l h in rw h (omega arith)
level_of_le (bin_op_expression op e f) (inr (h, small), v, w) =
    rw (assignment_rank op h).1 (omega arith)
level_of_le (var_decl_expression d) w = absurd w

-- A subexpression that is wrapped, or need not be.
pub wrapped-Derives :
    (wrap : Bool) (l : ℕ) (e : Expr) {ps : List Piece}
    → IsWellFormed e
    → (wrap ≡ false → level_of e ≤ l)
    → Derives (level_of e) ps e
    → Derives l (wrapped wrap ps) e
wrapped-Derives true l e w h d = lift_to (omega arith) (parens (lift_to (level_of_le e w) d))
wrapped-Derives false l e w h d = lift_to (h refl) d

lhs_bound :
    (p : ℤ) (n r : ℕ) → 2 ≤ r → n ≤ max 3 (neg_part p) → ltb_ℤ p (negsuc r) ≡ false → n ≤ suc r
lhs_bound p n r low below h = ground arith

rhs_bound :
    (p : ℤ) (n r : ℕ)
    → 3 ≤ r
    → n ≤ max 3 (neg_part p)
    → pos_part p ≡ 0
    → not (ltb_ℤ (negsuc r) p) ≡ false
    → n ≤ r
rhs_bound p n r low below part h = ground arith

unary_bound :
    (p : ℤ) (n r : ℕ)
    → r ≡ 2
    → n ≤ max 3 (neg_part p)
    → pos_part p ≡ 0
    → not (ltb_ℤ (negsuc r) p) ≡ false
    → n ≤ 3
unary_bound p n r two below part h = ground arith

-- The left operand of an operator behind the postfix ones, and the right one.
pub lhs_level :
    (op : Op) (e : Expr)
    → 2 ≤ rank op
    → IsWellFormed e
    → should_wrap_lhs_subexpr op e ≡ false
    → level_of e ≤ suc (rank op)
lhs_level op e r w h =
    lhs_bound (precedence e) (level_of e) (rank op) r (level_of-precedence e w).0 h

pub rhs_level :
    (op : Op) (e : Expr)
    → 3 ≤ rank op
    → IsWellFormed e
    → should_wrap_rhs_subexpr op e ≡ false
    → level_of e ≤ rank op
rhs_level op e r w h =
    let (below, part) = level_of-precedence e w in
    rhs_bound (precedence e) (level_of e) (rank op) r below part h

-- The operand of a unary operator or of a cast.
pub unary_level :
    (op : Op) (e : Expr)
    → rank op ≡ 2
    → IsWellFormed e
    → should_wrap_rhs_subexpr op e ≡ false
    → level_of e ≤ 3
unary_level op e r w h =
    let (below, part) = level_of-precedence e w in
    unary_bound (precedence e) (level_of e) (rank op) r below part h

-- What is called or accessed.
pub postfix_level :
    (op : Op) (e : Expr)
    → rank op ≡ 1
    → IsWellFormed e
    → is_negative e ≡ false
    → should_wrap_lhs_subexpr op e ≡ false
    → level_of e ≤ 2
postfix_level op (literal_expression t) r w n h = rw n (omega arith)
postfix_level op (id_expression x) r w n h = omega arith
postfix_level op (if_expression c t e) r w n h = omega arith
postfix_level op (call_expression f es) r w n h = omega arith
postfix_level op (array_access_expression a is) r w n h = omega arith
postfix_level op (cast_expression t e) r w n h = ground arith
postfix_level op (un_op_expression p e) r w n h = ground (arith, prefix_rank p w.0)
postfix_level op (bin_op_expression p e f) r (inl (l, b, apart), v, w) n h =
    ground (arith, binary_rank p l b)
postfix_level op (bin_op_expression p e f) r (inr (b, small), v, w) n h =
    ground (arith, assignment_rank p b)
postfix_level op (var_decl_expression d) r w n h = absurd w
