-- ===== src/LinearExpr/Constraint/Members.antt =====
-- frontend/linear_expr_gen.cpp and frontend/array_to_isl.cpp: the points of the set of a constraint.
use arrp.Common.{
  ℕ, ◌≡◌, refl, sym, ap, ap₂, subst, ◌∙◌, ◌⊎◌, inl, inr, Bool, true, false, not, ◌&&◌, ◌||◌, Option,
  none, some,
}
use arrp.Common.Int.{ℤ, ltb_ℤ}
use arrp.Common.Partial.{◌>>=◌, >>=-eq-some, some_inj}
use arrp.Primitive.Op.{PrimitiveOp}
use arrp.FuncType.{same_int, TypePtr}
use arrp.Functional.{Expr, bool_const, primitive, no_exprs, more_exprs}
use arrp.LinearExpr.{ensure_expression, Isl}
use arrp.LinearExpr.Value.{is_long, value, IsInSpace, IslLaws}
use arrp.LinearExpr.Translated.{ensure_expression-translated, to_affine_expr-value}
use arrp.LinearExpr.Constraint.{
  Comparison, equal, not_equal, less, greater, less_or_equal, greater_or_equal, Connective,
  conjunction, disjunction, ConstraintOp, comparison, negation, connective, constraint_op, both,
  unary_case, binary_case, binary_expr, ensure_constraint, IslSet, compared, connected,
  to_affine_set,
}

-- The comparisons of integers.
abbrev pub compares : Comparison → ℤ → ℤ → Bool
compares equal v w = same_int v w
compares not_equal v w = not (same_int v w)
compares less v w = ltb_ℤ v w
compares greater v w = ltb_ℤ w v
compares less_or_equal v w = not (ltb_ℤ w v)
compares greater_or_equal v w = not (ltb_ℤ v w)

abbrev pub connects : Connective → Bool → Bool → Bool
connects conjunction a b = a && b
connects disjunction a b = a || b

-- What a comparison and a connective mean.
abbrev pub compare_values : PrimitiveOp → ℤ → ℤ → Option Bool
compare_values PrimitiveOp.compare_eq v w = some (same_int v w)
compare_values PrimitiveOp.compare_neq v w = some (not (same_int v w))
compare_values PrimitiveOp.compare_l v w = some (ltb_ℤ v w)
compare_values PrimitiveOp.compare_g v w = some (ltb_ℤ w v)
compare_values PrimitiveOp.compare_leq v w = some (not (ltb_ℤ w v))
compare_values PrimitiveOp.compare_geq v w = some (not (ltb_ℤ v w))
compare_values _ v w = none

-- Whether a constraint holds, for the values of the array variables; none where an index has no value.
unfoldable pub holds : (ℕ → ℤ) → Expr → Option Bool
holds p (bool_const b) = some b
holds p (primitive PrimitiveOp.negate (more_exprs a no_exprs) t) = holds p a >>= λ h. some (not h)
holds p (primitive PrimitiveOp.logic_and (more_exprs a (more_exprs b no_exprs)) t) =
    holds p a >>= λ h. holds p b >>= λ k. some (h && k)
holds p (primitive PrimitiveOp.logic_or (more_exprs a (more_exprs b no_exprs)) t) =
    holds p a >>= λ h. holds p b >>= λ k. some (h || k)
holds p (primitive op (more_exprs a (more_exprs b no_exprs)) t) =
    value p a >>= λ v. value p b >>= λ w. compare_values op v w
holds p _ = none

-- What is documented of sets of isl: the membership of a point.
pub record SetLaws {Aff Set : Type 0} (sets : IslSet Aff Set) (eval : Aff → (ℕ → ℤ) → ℤ)
    (member : Set → (ℕ → ℤ) → Bool) : Type 0 where
  pub member-universe : (q : ℕ → ℤ) → member sets.universe q ≡ true
  pub member-empty : (q : ℕ → ℤ) → member sets.empty q ≡ false
  pub member-related :
      (c : Comparison) (a b : Aff) (q : ℕ → ℤ)
      → member (sets.related c a b) q ≡ compares c (eval a q) (eval b q)
  pub member-complement : (s : Set) (q : ℕ → ℤ) → member (sets.complement s) q ≡ not (member s q)
  pub member-intersection :
      (s t : Set) (q : ℕ → ℤ) → member (sets.intersection s t) q ≡ member s q && member t q
  pub member-union : (s t : Set) (q : ℕ → ℤ) → member (sets.union s t) q ≡ member s q || member t q

-- The meaning of an operation, as the switches read it.
holds-negation :
    (p : ℕ → ℤ) (op : PrimitiveOp) (a : Expr) (t : TypePtr) {b : Bool}
    → constraint_op op ≡ negation
    → holds p (primitive op (more_exprs a no_exprs) t) ≡ some b
    → (c : Bool) × (holds p a ≡ some c) × (not c ≡ b)
unfolding holds
holds-negation p PrimitiveOp.negate a t h e =
    let (c, hc, same) = >>=-eq-some (holds p a) _ e in (c, hc, some_inj same)
holds-negation p op a t h e = cc

values_compared :
    (p : ℕ → ℤ) (c : Comparison) (op : PrimitiveOp) (a b : Expr) {r : Bool}
    → ((v w : ℤ) → compare_values op v w ≡ some (compares c v w))
    → (value p a >>= λ v. value p b >>= λ w. compare_values op v w) ≡ some r
    → (v : ℤ) × (w : ℤ) × (value p a ≡ some v) × (value p b ≡ some w) × (compares c v w ≡ r)
values_compared p c op a b same e =
    let (v, hv, e') = >>=-eq-some (value p a) _ e in
    let (w, hw, e'') = >>=-eq-some (value p b) _ e' in
    (v, w, hv, hw, some_inj (sym (same v w) ∙ e''))

holds-comparison :
    (p : ℕ → ℤ) (c : Comparison) (op : PrimitiveOp) (a b : Expr) (t : TypePtr) {r : Bool}
    → constraint_op op ≡ comparison c
    → holds p (binary_expr op t a b) ≡ some r
    → (v : ℤ) × (w : ℤ) × (value p a ≡ some v) × (value p b ≡ some w) × (compares c v w ≡ r)
unfolding holds
holds-comparison p equal PrimitiveOp.compare_eq a b t h e =
    values_compared p equal PrimitiveOp.compare_eq a b (λ v w. refl) e
holds-comparison p not_equal PrimitiveOp.compare_neq a b t h e =
    values_compared p not_equal PrimitiveOp.compare_neq a b (λ v w. refl) e
holds-comparison p less PrimitiveOp.compare_l a b t h e =
    values_compared p less PrimitiveOp.compare_l a b (λ v w. refl) e
holds-comparison p greater PrimitiveOp.compare_g a b t h e =
    values_compared p greater PrimitiveOp.compare_g a b (λ v w. refl) e
holds-comparison p less_or_equal PrimitiveOp.compare_leq a b t h e =
    values_compared p less_or_equal PrimitiveOp.compare_leq a b (λ v w. refl) e
holds-comparison p greater_or_equal PrimitiveOp.compare_geq a b t h e =
    values_compared p greater_or_equal PrimitiveOp.compare_geq a b (λ v w. refl) e
holds-comparison p c op a b t h e = cc

holds-connective :
    (p : ℕ → ℤ) (c : Connective) (op : PrimitiveOp) (a b : Expr) (t : TypePtr) {r : Bool}
    → constraint_op op ≡ connective c
    → holds p (binary_expr op t a b) ≡ some r
    → (v : Bool) × (w : Bool) × (holds p a ≡ some v) × (holds p b ≡ some w) × (connects c v w ≡ r)
unfolding holds
holds-connective p conjunction PrimitiveOp.logic_and a b t h e =
    let (v, hv, e') = >>=-eq-some (holds p a) _ e in
    let (w, hw, e'') = >>=-eq-some (holds p b) _ e' in (v, w, hv, hw, some_inj e'')
holds-connective p disjunction PrimitiveOp.logic_or a b t h e =
    let (v, hv, e') = >>=-eq-some (holds p a) _ e in
    let (w, hw, e'') = >>=-eq-some (holds p b) _ e' in (v, w, hv, hw, some_inj e'')
holds-connective p c op a b t h e = cc

both-eq-some {ℓ κ} :
    {A : Type ℓ} {B : Type κ} (m n : Option A) (f : A → A → B) {r : B}
    → both m n f ≡ some r
    → (a : A) × (b : A) × (m ≡ some a) × (n ≡ some b) × (f a b ≡ r)
both-eq-some (some a) (some b) f h = (a, b, refl, refl, some_inj h)
both-eq-some (some a) none f h = cc
both-eq-some none n f h = cc

unary_case_lem {ℓ} :
    {A : Type ℓ} (co : ConstraintOp) (m : Option A) {r : A}
    → unary_case co m ≡ some r
    → (co ≡ negation) × (m ≡ some r)
unary_case_lem negation m h = (refl, h)
unary_case_lem co m h = cc

binary_case_lem {ℓ} :
    {A : Type ℓ} (co : ConstraintOp) (m : Comparison → Option A) (n : Connective → Option A) {r : A}
    → binary_case co m n ≡ some r
    → ((c : Comparison) × (co ≡ comparison c) × (m c ≡ some r))
      ⊎ ((c : Connective) × (co ≡ connective c) × (n c ≡ some r))
binary_case_lem (comparison c) m n h = inl (c, refl, h)
binary_case_lem (connective c) m n h = inr (c, refl, h)
binary_case_lem co m n h = cc

module _ {Aff Set : Type 0} (isl : Isl Aff) (sets : IslSet Aff Set) (eval : Aff → (ℕ → ℤ) → ℤ)
    (member : Set → (ℕ → ℤ) → Bool) (laws : IslLaws isl eval) (set_laws : SetLaws sets eval member)
    (get_si : ℤ → ℤ) (exact : (v : ℤ) → is_long v ≡ true → get_si v ≡ v) (index_of : ℕ → Option ℕ)
    (p q : ℕ → ℤ) (same_point : (i d : ℕ) → index_of i ≡ some d → q d ≡ p i) where
  abbrev Translation : Expr → Expr → Type 0
  Translation e e' =
      (b : Bool)
      → IsInSpace index_of e'
      → holds p e ≡ some b
      → (s : Set) × (to_affine_set isl sets get_si index_of e' ≡ some s) × (member s q ≡ b)

  constant-Translation : (b : Bool) → Translation (bool_const b) (bool_const b)
  unfolding to_affine_set holds
  constant-Translation true c _ h = (sets.universe, refl, set_laws.member-universe q ∙ some_inj h)
  constant-Translation false c _ h = (sets.empty, refl, set_laws.member-empty q ∙ some_inj h)

  negation-Translation :
      (op : PrimitiveOp) (a a' : Expr) (t : TypePtr)
      → constraint_op op ≡ negation
      → Translation a a'
      → Translation
          (primitive op (more_exprs a no_exprs) t)
          (primitive op (more_exprs a' no_exprs) t)
  unfolding to_affine_set IsInSpace
  negation-Translation op a a' t h part b space hb =
      let (c, hc, same) = holds-negation p op a t h hb in
      let (s, k, known) = part c space.0 hc in
      (sets.complement s, rw (h, k) refl, set_laws.member-complement s q ∙ ap not known ∙ same)

  compared_lem :
      (c : Comparison) (a b : Aff) {v w : ℤ}
      → eval a q ≡ v
      → eval b q ≡ w
      → member (compared isl sets get_si index_of c a b) q ≡ compares c v w
  compared_lem not_equal a b h k =
      set_laws.member-complement (sets.related equal a b) q
      ∙ ap not (set_laws.member-related equal a b q ∙ ap₂ same_int h k)
  compared_lem equal a b h k = set_laws.member-related equal a b q ∙ ap₂ (compares equal) h k
  compared_lem less a b h k = set_laws.member-related less a b q ∙ ap₂ (compares less) h k
  compared_lem greater a b h k = set_laws.member-related greater a b q ∙ ap₂ (compares greater) h k
  compared_lem less_or_equal a b h k =
      set_laws.member-related less_or_equal a b q ∙ ap₂ (compares less_or_equal) h k
  compared_lem greater_or_equal a b h k =
      set_laws.member-related greater_or_equal a b q ∙ ap₂ (compares greater_or_equal) h k

  connected_lem :
      (c : Connective) (s t : Set) {v w : Bool}
      → member s q ≡ v
      → member t q ≡ w
      → member (connected isl sets get_si index_of c s t) q ≡ connects c v w
  connected_lem conjunction s t h k = set_laws.member-intersection s t q ∙ ap₂ (λ a b. a && b) h k
  connected_lem disjunction s t h k = set_laws.member-union s t q ∙ ap₂ (λ a b. a || b) h k

  comparison-Translation :
      (c : Comparison) (op : PrimitiveOp) (a b a' b' : Expr) (t : TypePtr)
      → constraint_op op ≡ comparison c
      → ensure_expression a ≡ some a'
      → ensure_expression b ≡ some b'
      → Translation (binary_expr op t a b) (binary_expr op t a' b')
  unfolding to_affine_set IsInSpace
  comparison-Translation c op a b a' b' t h ha hb r (sa, (sb, _)) hr =
      let (v, w, hv, hw, same) = holds-comparison p c op a b t h hr in
      let (x, hx) =
        ensure_expression-translated isl eval laws get_si exact index_of p q same_point a v ha sa
          hv in
      let (y, hy) =
        ensure_expression-translated isl eval laws get_si exact index_of p q same_point b w hb sb
          hw in
      (
        compared isl sets get_si index_of c x y,
        rw (h, hx, hy) refl,
        compared_lem c x y
              (to_affine_expr-value isl eval laws get_si exact index_of p q same_point a v ha sa hx
                hv)
              (to_affine_expr-value isl eval laws get_si exact index_of p q same_point b w hb sb hy
                hw)
            ∙ same,
      )

  connective-Translation :
      (c : Connective) (op : PrimitiveOp) (a b a' b' : Expr) (t : TypePtr)
      → constraint_op op ≡ connective c
      → Translation a a'
      → Translation b b'
      → Translation (binary_expr op t a b) (binary_expr op t a' b')
  unfolding to_affine_set IsInSpace
  connective-Translation c op a b a' b' t h part part' r (sa, (sb, _)) hr =
      let (v, w, hv, hw, same) = holds-connective p c op a b t h hr in
      let (x, hx, known) = part v sa hv in
      let (y, hy, known') = part' w sb hw in
      (
        connected isl sets get_si index_of c x y,
        rw (h, hx, hy) refl,
        connected_lem c x y known known' ∙ same,
      )

  translation : (e : Expr) {e' : Expr} → ensure_constraint e ≡ some e' → Translation e e'
  unfolding ensure_constraint
  translation (bool_const b) h =
      subst (Translation (bool_const b)) (some_inj h) (constant-Translation b)
  translation (primitive op (more_exprs a no_exprs) t) {e'} h =
      let (is, h') = unary_case_lem (constraint_op op) _ h in
      let (a', ha, same) = >>=-eq-some (ensure_constraint a) _ h' in
      subst (Translation (primitive op (more_exprs a no_exprs) t)) (some_inj same)
        (negation-Translation op a a' t is (translation a ha))
  translation (primitive op (more_exprs a (more_exprs b no_exprs)) t) {e'} h =
      elim (binary_case_lem (constraint_op op) _ _ h) [
        | inl (c, is, h') ↦
            let (a', b', ha, hb, same) =
              both-eq-some (ensure_expression a) (ensure_expression b) (binary_expr op t) h' in
            subst (Translation (binary_expr op t a b)) same
              (comparison-Translation c op a b a' b' t is ha hb)
        | inr (c, is, h') ↦
            let (a', b', ha, hb, same) =
              both-eq-some (ensure_constraint a) (ensure_constraint b) (binary_expr op t) h' in
            subst (Translation (binary_expr op t a b)) same
              (connective-Translation c op a b a' b' t is (translation a ha) (translation b hb))
      ]
  translation e h = cc

  -- The set to which what the check leaves of a constraint is translated has a point just where the
  -- constraint holds, if its index expressions have values, with division that rounds down.
  pub to_affine_set-member :
      (e : Expr) {e' : Expr} (b : Bool) {s : Set}
      → ensure_constraint e ≡ some e'
      → IsInSpace index_of e'
      → to_affine_set isl sets get_si index_of e' ≡ some s
      → holds p e ≡ some b
      → member s q ≡ b
  to_affine_set-member e b h space k hb =
      let (t, k', known) = translation e h b space hb in
      ap (λ u. member u q) (some_inj (sym k ∙ k')) ∙ known
