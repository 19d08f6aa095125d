-- ===== src/CppGen/Grammar/Written.antt =====
-- utility/cpp-gen.cpp: what is written for an expression, in the grammar of C++.
use arrp.Common.{
  ℕ, suc, ◌≤◌, ◌≡◌, refl, ap, subst, ◌∙◌, true, Bool-cases, ◌⊎◌, inl, inr, [], ◌∷◌, ◌++◌, some,
  arith,
}
use Prim.Native.String.{String}
use mathlib.Core.List.{append_assoc}
use arrp.CppGen.{Op, cast, array_subscript, function_call}
use arrp.CppGen.Expression.{
  text, Expr, Exprs, literal_expression, id_expression, un_op_expression, bin_op_expression,
  if_expression, call_expression, cast_expression, array_access_expression, var_decl_expression,
  no_exprs, more_exprs, should_wrap_rhs_subexpr, should_wrap_lhs_subexpr, generate, generate_args,
  generate_more, generate_index,
}
use arrp.CppGen.Grammar.{
  is_prefix, binary_level, is_assignment, starts_with, Apart, written_rhs, level_above, Derives,
  DerivesArgs, DerivesMore, DerivesIndex, literal, negative, name, parens, prefix, binary,
  assignment, choice, call, casting, access, no_args, args, no_more, more, no_index, index,
  level_of, IsWellFormed, AreWellFormed,
}
use arrp.CppGen.Grammar.Levels.{
  lift_to, prefix_rank, binary_rank, assignment_rank, level_of_le, wrapped-Derives, lhs_level,
  rhs_level, unary_level, postfix_level,
}

-- One step of `generate`, for the parts that it writes.
un_op_step :
    (op : Op) (e : Expr)
    → is_prefix op ≡ true
    → Apart op (written_rhs op e)
    → IsWellFormed e
    → Derives (level_of e) (generate e) e
    → Derives 3 (generate (un_op_expression op e)) (un_op_expression op e)
unfolding generate
un_op_step op e h apart w d =
    prefix h apart (
      wrapped-Derives (should_wrap_rhs_subexpr op e) 3 e w (unary_level op e (prefix_rank op h) w)
        d)

binary_step :
    (op : Op) (l : ℕ) (e f : Expr)
    → binary_level op ≡ some l
    → Apart op (written_rhs op f)
    → IsWellFormed e
    → IsWellFormed f
    → Derives (level_of e) (generate e) e
    → Derives (level_of f) (generate f) f
    → Derives (suc l) (generate (bin_op_expression op e f)) (bin_op_expression op e f)
unfolding generate
binary_step op l e f h apart v w c d =
    let (same, low, high) = binary_rank op l h in
    binary h apart
      (wrapped-Derives (should_wrap_lhs_subexpr op e) (suc l) e v
        (λ n. omega (arith, same, lhs_level op e (omega arith) v n)) c)
      (wrapped-Derives (should_wrap_rhs_subexpr op f) l f w
        (λ n. omega (arith, same, rhs_level op f (omega arith) w n)) d)

bin_op_step :
    (op : Op) (e f : Expr)
    → ((l : ℕ) × (binary_level op ≡ some l) × Apart op (written_rhs op f))
      ⊎ ((is_assignment op ≡ true) × (level_of e ≤ 13))
    → IsWellFormed e
    → IsWellFormed f
    → Derives (level_of e) (generate e) e
    → Derives (level_of f) (generate f) f
    → Derives
        (level_above (binary_level op))
        (generate (bin_op_expression op e f))
        (bin_op_expression op e f)
unfolding generate
bin_op_step op e f (inl (l, h, apart)) v w c d = rw h (binary_step op l e f h apart v w c d)
bin_op_step op e f (inr (h, small)) v w c d =
    let (last, no_level) = assignment_rank op h in
    rw no_level (
      assignment h (wrapped-Derives (should_wrap_lhs_subexpr op e) 13 e v (λ _. small) c) (
        wrapped-Derives (should_wrap_rhs_subexpr op f) 14 f w
          (λ n. omega (arith, last, rhs_level op f (omega arith) w n)) d))

literal_step :
    (t : String) → Derives (level_of (literal_expression t)) (text t ∷ []) (literal_expression t)
literal_step t = elim (Bool-cases (starts_with b'-' t)) [
  | inl e ↦ rw e (negative t e)
  | inr e ↦ rw e (literal t e)
]

if_step :
    (c t e : Expr)
    → Derives 13 (generate c) c
    → Derives 14 (generate t) t
    → Derives 14 (generate e) e
    → Derives 0 (generate (if_expression c t e)) (if_expression c t e)
unfolding generate
if_step c t e dc dt de =
    subst (λ ps. Derives 0 (text "(" ∷ ps) (if_expression c t e)) closed (parens (choice dc dt de))
  where
    closed :
        (generate c ++ (text " ? " ∷ generate t ++ (text " : " ∷ generate e))) ++ text ")" ∷ []
        ≡ generate c ++ (text " ? " ∷ generate t ++ (text " : " ∷ generate e ++ text ")" ∷ []))
    closed =
        append_assoc (generate c) (text " ? " ∷ generate t ++ (text " : " ∷ generate e))
          (text ")" ∷ [])
        ∙ ap (λ ps. generate c ++ (text " ? " ∷ ps))
            (append_assoc (generate t) (text " : " ∷ generate e) (text ")" ∷ []))

mutual
  unfolding generate

  generated : (e : Expr) → IsWellFormed e → Derives (level_of e) (generate e) e
  generated (literal_expression t) w = literal_step t
  generated (id_expression x) w = name x
  generated (un_op_expression op e) (h, apart, w) = un_op_step op e h apart w (generated e w)
  generated (bin_op_expression op e f) (h, v, w) =
      bin_op_step op e f h v w (generated e v) (generated f w)
  generated (if_expression c t e) (wc, wt, we, small) =
      if_step c t e (lift_to small (generated c wc)) (lift_to (level_of_le t wt) (generated t wt))
        (lift_to (level_of_le e we) (generated e we))
  generated (call_expression f es) (w, n, ws) =
      call
        (wrapped-Derives (should_wrap_lhs_subexpr function_call f) 2 f w
          (postfix_level function_call f refl w n) (generated f w))
        (generated_args es ws)
  generated (cast_expression t e) w = casting t (
      wrapped-Derives (should_wrap_rhs_subexpr cast e) 3 e w (unary_level cast e refl w)
        (generated e w))
  generated (array_access_expression a (more_exprs i is)) (w, n, ws, _) =
      access
        (wrapped-Derives (should_wrap_lhs_subexpr array_subscript a) 2 a w
          (postfix_level array_subscript a refl w n) (generated a w))
        (generated_index (more_exprs i is) ws)
  generated (array_access_expression a no_exprs) (_, _, _, missing) = elim missing [ ]
  generated (var_decl_expression d) w = absurd w

  generated_args : (es : Exprs) → AreWellFormed es → DerivesArgs (generate_args es) es
  generated_args no_exprs w = no_args
  generated_args (more_exprs e es) (w, ws) =
      args (lift_to (level_of_le e w) (generated e w)) (generated_more es ws)

  generated_more : (es : Exprs) → AreWellFormed es → DerivesMore (generate_more es) es
  generated_more no_exprs w = no_more
  generated_more (more_exprs e es) (w, ws) =
      more (lift_to (level_of_le e w) (generated e w)) (generated_more es ws)

  generated_index : (es : Exprs) → AreWellFormed es → DerivesIndex (generate_index es) es
  generated_index no_exprs w = no_index
  generated_index (more_exprs e es) (w, ws) =
      index (lift_to (level_of_le e w) (generated e w)) (generated_index es ws)
