-- ===== src/LinearExpr/Translated.antt =====
-- frontend/linear_expr_gen.cpp and frontend/array_to_isl.cpp: an index expression that passes the check can be
-- translated, and keeps its value.
use arrp.Common.{
  ℕ, ◌≡◌, refl, sym, ap, ap₂, subst, ◌∙◌, inl, inr, true, false, Bool-cases, List, [], ◌∷◌, Option,
  some,
}
use arrp.Common.Int.{ℤ}
use arrp.Common.Partial.{◌>>=◌, >>=-eq-some, some_inj}
use arrp.Primitive.Op.{PrimitiveOp}
use arrp.FuncType.{TypePtr}
use arrp.Functional.{
  Expr, Exprs, int_const, reference, primitive, array_var, identifier, no_exprs, more_exprs,
}
use arrp.LinearExpr.{
  AffineExprType, affine_constant, affine_variable, operation_type, ensure_expression_get_type,
  ensure_operands, ensure_expression, Isl, to_affine_expr, to_affine_operands,
}
use arrp.LinearExpr.Value.{is_long, operation_value, value, values, IsInSpace, AreInSpace, IslLaws}
use arrp.LinearExpr.Operation.{Agrees, AllAgree, AllAt, operation_translated}

-- `get_si` is exact in the range of `long`; the point of the space has the values of the variables.
module _ {Aff : Type 0} (isl : Isl Aff) (eval : Aff → (ℕ → ℤ) → ℤ) (laws : IslLaws isl eval)
    (get_si : ℤ → ℤ) (exact : (v : ℤ) → is_long v ≡ true → get_si v ≡ v) (index_of : ℕ → Option ℕ)
    (p q : ℕ → ℤ) (same_point : (i d : ℕ) → index_of i ≡ some d → q d ≡ p i) where
  -- Where it has a value, the expression is translated, and keeps the value.
  abbrev pub TranslatesAs : Expr × AffineExprType → Type 0
  TranslatesAs (e, t) =
      (v : ℤ)
      → IsInSpace index_of e
      → value p e ≡ some v
      → (a : Aff) × (to_affine_expr isl get_si index_of e ≡ some a)
        × Agrees isl t a
        × (eval a q ≡ v)

  abbrev pub TranslateAs : Exprs × List AffineExprType → Type 0
  TranslateAs (es, ts) =
      (vs : List ℤ)
      → AreInSpace index_of es
      → values p es ≡ some vs
      → (rest : List Aff) × (to_affine_operands isl get_si index_of es ≡ some rest)
        × AllAgree isl ts rest
        × AllAt isl eval q rest vs

  constant_translates : (v : ℤ) (t : TypePtr) → TranslatesAs (int_const v t, affine_constant)
  unfolding to_affine_expr value
  constant_translates v t w _ h =
      (isl.val (get_si v), refl, λ _. laws.val-constant (get_si v), known)
    where
      known : eval (isl.val (get_si v)) q ≡ w
      known = elim (Bool-cases (is_long v)) [
        | inl e ↦ laws.eval-val (get_si v) q ∙ exact v e ∙ some_inj (rw e at h)
        | inr e ↦ cc (rw e at h)
      ]

  variable_translates :
      (i : ℕ) (t : TypePtr) → TranslatesAs (reference (array_var i) t, affine_variable)
  unfolding to_affine_expr value IsInSpace
  variable_translates i t v (d, h) k = (
    isl.dim d,
    rw h refl,
    λ e. absurd (impossible e),
    laws.eval-dim d q ∙ same_point i d h ∙ some_inj k,
  )
    where
      impossible : false ≡ true → ⊥
      impossible h = cc

  operation_translates :
      (op : PrimitiveOp) (es : Exprs) (ts : List AffineExprType) (t : TypePtr)
      (kind : AffineExprType)
      → operation_type op ts ≡ some kind
      → TranslateAs (es, ts)
      → TranslatesAs (primitive op es t, kind)
  unfolding to_affine_expr value IsInSpace
  operation_translates op es ts t kind h translated v space hv =
      let (vs, hvs, hop) = >>=-eq-some (values p es) (operation_value op) hv in
      let (rest, e, g, known) = translated vs space hvs in
      let (a, k, agrees, same) = operation_translated isl eval laws q op ts rest vs h g known hop in
      (a, rw e k, agrees, same)

  more_translate :
      (r : Expr × AffineExprType) (rs : Exprs × List AffineExprType)
      → TranslatesAs r
      → TranslateAs rs
      → TranslateAs (more_exprs r.0 rs.0, r.1 ∷ rs.1)
  unfolding to_affine_expr value IsInSpace
  more_translate r rs first rest vs (s, ss) h =
      let (v, hv, h') = >>=-eq-some (value p r.0) _ h in
      let (ws, hws, h'') = >>=-eq-some (values p rs.0) _ h' in
      let (a, e, agrees, known) = first v s hv in
      let (more, es, agree, knowns) = rest ws ss hws in
      (
        a ∷ more,
        rw (e, es) refl,
        (agrees, agree),
        subst (λ l. AllAt isl eval q (a ∷ more) l) (some_inj h'') (known, knowns),
      )

  none_translate : TranslateAs (no_exprs, [])
  unfolding to_affine_expr value
  none_translate vs _ h = ([], refl, tt, subst (λ l. AllAt isl eval q [] l) (some_inj h) tt)

  mutual
    unfolding ensure_expression_get_type

    translates :
        (e : Expr) (r : Expr × AffineExprType)
        → ensure_expression_get_type e ≡ some r
        → TranslatesAs r
    translates (int_const v t) r h = subst TranslatesAs (some_inj h) (constant_translates v t)
    translates (reference (array_var i) t) r h =
        subst TranslatesAs (some_inj h) (variable_translates i t)
    translates (reference (identifier false e) t) r h = translates e r h
    translates (primitive op es t) r h =
        let (rs, hs, h') = >>=-eq-some (ensure_operands es) _ h in
        let (kind, hk, h'') = >>=-eq-some (operation_type op rs.1) _ h' in
        subst TranslatesAs (some_inj h'')
          (operation_translates op rs.0 rs.1 t kind hk (translate es rs hs))
    translates e r h = cc

    translate :
        (es : Exprs) (rs : Exprs × List AffineExprType)
        → ensure_operands es ≡ some rs
        → TranslateAs rs
    translate no_exprs rs h = subst TranslateAs (some_inj h) none_translate
    translate (more_exprs e es) rs h =
        let (r, hr, h') = >>=-eq-some (ensure_expression_get_type e) _ h in
        let (rest, hs, h'') = >>=-eq-some (ensure_operands es) _ h' in
        subst TranslateAs (some_inj h'')
          (more_translate r rest (translates e r hr) (translate es rest hs))

  ensured :
      (e : Expr) {e' : Expr}
      → ensure_expression e ≡ some e'
      → (r : Expr × AffineExprType) × (ensure_expression_get_type e ≡ some r) × (r.0 ≡ e')
  unfolding ensure_expression
  ensured e h =
      let (r, hr, h') = >>=-eq-some (ensure_expression_get_type e) _ h in (r, hr, some_inj h')

  mutual
    unfolding ensure_expression_get_type value

    same_value :
        (e : Expr) (r : Expr × AffineExprType)
        → ensure_expression_get_type e ≡ some r
        → value p r.0 ≡ value p e
    same_value (int_const v t) r h =
        ap (λ (s : Expr × AffineExprType). value p s.0) (sym (some_inj h))
    same_value (reference (array_var i) t) r h =
        ap (λ (s : Expr × AffineExprType). value p s.0) (sym (some_inj h))
    same_value (reference (identifier false e) t) r h = same_value e r h
    same_value (primitive op es t) r h =
        let (rs, hs, h') = >>=-eq-some (ensure_operands es) _ h in
        let (kind, hk, h'') = >>=-eq-some (operation_type op rs.1) _ h' in
        ap (λ (s : Expr × AffineExprType). value p s.0) (sym (some_inj h''))
        ∙ ap (λ vs. vs >>= operation_value op) (same_values es rs hs)
    same_value e r h = cc

    same_values :
        (es : Exprs) (rs : Exprs × List AffineExprType)
        → ensure_operands es ≡ some rs
        → values p rs.0 ≡ values p es
    same_values no_exprs rs h =
        ap (λ (s : Exprs × List AffineExprType). values p s.0) (sym (some_inj h))
    same_values (more_exprs e es) rs h =
        let (r, hr, h') = >>=-eq-some (ensure_expression_get_type e) _ h in
        let (rest, hs, h'') = >>=-eq-some (ensure_operands es) _ h' in
        ap (λ (s : Exprs × List AffineExprType). values p s.0) (sym (some_inj h''))
        ∙ ap₂ (λ v vs. v >>= λ x. vs >>= λ xs. some (x ∷ xs)) (same_value e r hr)
            (same_values es rest hs)

  ensured_translates :
      (e : Expr) {e' : Expr} (v : ℤ)
      → ensure_expression e ≡ some e'
      → IsInSpace index_of e'
      → value p e ≡ some v
      → (a : Aff) × (to_affine_expr isl get_si index_of e' ≡ some a) × (eval a q ≡ v)
  ensured_translates e v h space hv =
      let (r, hr, same) = ensured e h in
      let (a, k, _, known) =
        translates e r hr v (subst (IsInSpace index_of) (sym same) space)
          (same_value e r hr ∙ hv) in
      (a, ap (to_affine_expr isl get_si index_of) (sym same) ∙ k, known)

  -- An index expression that passes the check, has its variables in the space, and has a value at a point,
  -- so that each divisor is positive there, can be translated to an expression of isl.
  pub ensure_expression-translated :
      (e : Expr) {e' : Expr} (v : ℤ)
      → ensure_expression e ≡ some e'
      → IsInSpace index_of e'
      → value p e ≡ some v
      → (a : Aff) × (to_affine_expr isl get_si index_of e' ≡ some a)
  ensure_expression-translated e v h space hv =
      let (a, k, _) = ensured_translates e v h space hv in (a, k)

  -- What the check leaves of an index expression is translated to an expression of isl that has, at the point
  -- of the variables, the value of the index expression, if it has one, with division that rounds down.
  pub to_affine_expr-value :
      (e : Expr) {e' : Expr} (v : ℤ) {a : Aff}
      → ensure_expression e ≡ some e'
      → IsInSpace index_of e'
      → to_affine_expr isl get_si index_of e' ≡ some a
      → value p e ≡ some v
      → eval a q ≡ v
  to_affine_expr-value e v h space k hv =
      let (b, k', known) = ensured_translates e v h space hv in
      ap (λ c. eval c q) (some_inj (sym k ∙ k')) ∙ known
