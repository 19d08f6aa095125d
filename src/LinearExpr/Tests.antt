-- ===== src/LinearExpr/Tests.antt =====
-- The theorem on index expressions, on an example, with expressions of isl as functions of a point.
use arrp.Common.{ℕ, suc, ◌≡◌, refl, ap, Bool, true, false, not, ◌&&◌, ◌||◌, Option, none, some}
use arrp.Common.Int.{ℤ, pos, negsuc, ◌+ℤ◌, ◌-ℤ◌, ◌*ℤ◌, ltb_ℤ}
use arrp.Common.Ring.{opposite}
use arrp.LinearExpr.Constraint.{IslSet, ensure_constraint, to_affine_set}
use arrp.LinearExpr.Constraint.Members.{compares, holds, SetLaws, to_affine_set-member}
use arrp.Primitive.Op.{PrimitiveOp}
use arrp.FuncType.{same_int, null}
use arrp.Functional.{
  Expr, int_const, reference, primitive, array_var, identifier, no_exprs, more_exprs,
}
use arrp.LinearExpr.{
  Isl, operation_type, ensure_expression_get_type, ensure_expression, to_affine_expr,
  operation_expr,
}
use arrp.LinearExpr.Value.{floor_div, floor_mod, value, IsInSpace, IslLaws}
use arrp.LinearExpr.Translated.{ensure_expression-translated, to_affine_expr-value}

data Aff : Type 0 where
  fixed : ℤ → Aff
  varying : ((ℕ → ℤ) → ℤ) → Aff

abbrev at_point : Aff → (ℕ → ℤ) → ℤ
at_point (fixed v) q = v
at_point (varying f) q = f q

abbrev lift₂ : (ℤ → ℤ → ℤ) → Aff → Aff → Aff
lift₂ f (fixed v) (fixed w) = fixed (f v w)
lift₂ f a b = varying (λ q. f (at_point a q) (at_point b q))

abbrev lift₁ : (ℤ → ℤ) → Aff → Aff
lift₁ f (fixed v) = fixed (f v)
lift₁ f (varying g) = varying (λ q. f (g q))

abbrev by_positive : (ℤ → ℕ → ℤ) → Aff → ℤ → Option Aff
by_positive f a (pos (suc k)) = some (lift₁ (λ v. f v (suc k)) a)
by_positive f a _ = none

abbrev is_fixed : Aff → Bool
is_fixed (fixed v) = true
is_fixed (varying f) = false

abbrev fixed_value : Aff → ℤ
fixed_value (fixed v) = v
fixed_value (varying f) = pos 0

abbrev functions : Isl Aff
functions = record {
  val = fixed;
  dim = λ d. varying (λ q. q d);
  plus = lift₂ (λ a b. a +ℤ b);
  minus = lift₂ (λ a b. a -ℤ b);
  negated = lift₁ opposite;
  scale = λ k. lift₁ (λ v. k *ℤ v);
  floor_over = by_positive floor_div;
  mod_over = by_positive floor_mod;
  is_constant = is_fixed;
  constant = fixed_value;
}

at-lift₂ :
    (f : ℤ → ℤ → ℤ) (a b : Aff) (q : ℕ → ℤ)
    → at_point (lift₂ f a b) q ≡ f (at_point a q) (at_point b q)
at-lift₂ f (fixed v) (fixed w) q = refl
at-lift₂ f (fixed v) (varying h) q = refl
at-lift₂ f (varying g) b q = refl

at-lift₁ : (f : ℤ → ℤ) (a : Aff) (q : ℕ → ℤ) → at_point (lift₁ f a) q ≡ f (at_point a q)
at-lift₁ f (fixed v) q = refl
at-lift₁ f (varying g) q = refl

fixed-lift₂ :
    (f : ℤ → ℤ → ℤ) (a b : Aff)
    → is_fixed a ≡ true
    → is_fixed b ≡ true
    → is_fixed (lift₂ f a b) ≡ true
fixed-lift₂ f (fixed v) (fixed w) h k = refl
fixed-lift₂ f (fixed v) (varying g) h k = k
fixed-lift₂ f (varying g) b h k = h

fixed-lift₁ : (f : ℤ → ℤ) (a : Aff) → is_fixed a ≡ true → is_fixed (lift₁ f a) ≡ true
fixed-lift₁ f (fixed v) h = refl
fixed-lift₁ f (varying g) h = h

at-fixed : (a : Aff) (q : ℕ → ℤ) → is_fixed a ≡ true → at_point a q ≡ fixed_value a
at-fixed (fixed v) q h = refl
at-fixed (varying f) q h = cc

functions-IslLaws : IslLaws functions at_point
functions-IslLaws = record {
  eval-val = λ v p. refl;
  eval-dim = λ d p. refl;
  eval-plus = at-lift₂ (λ a b. a +ℤ b);
  eval-minus = at-lift₂ (λ a b. a -ℤ b);
  eval-negated = at-lift₁ opposite;
  eval-scale = λ k. at-lift₁ (λ v. k *ℤ v);
  eval-constant = at-fixed;
  val-constant = λ v. refl;
  plus-constant = fixed-lift₂ (λ a b. a +ℤ b);
  minus-constant = fixed-lift₂ (λ a b. a -ℤ b);
  scale-constant = λ k. fixed-lift₁ (λ v. k *ℤ v);
  floor_over_lem = λ a k. (
    lift₁ (λ v. floor_div v (suc k)) a,
    refl,
    at-lift₁ (λ v. floor_div v (suc k)) a,
    fixed-lift₁ _ a,
  );
  mod_over_lem = λ a k. (
    lift₁ (λ v. floor_mod v (suc k)) a,
    refl,
    at-lift₁ (λ v. floor_mod v (suc k)) a,
    fixed-lift₁ _ a,
  );
}

-- (2 * i - 7) / x, where x stands for 3.
abbrev source : Expr
source =
    primitive PrimitiveOp.divide_integer
      (more_exprs
        (primitive PrimitiveOp.subtract
          (more_exprs
            (primitive PrimitiveOp.multiply
              (more_exprs (int_const (pos 2) null)
                (more_exprs (reference (array_var 5) null) no_exprs))
              null)
            (more_exprs (int_const (pos 7) null) no_exprs))
          null)
        (more_exprs (reference (identifier false (int_const (pos 3) null)) null) no_exprs))
      null

abbrev flattened : Expr
flattened =
    primitive PrimitiveOp.divide_integer
      (more_exprs
        (primitive PrimitiveOp.subtract
          (more_exprs
            (primitive PrimitiveOp.multiply
              (more_exprs (int_const (pos 2) null)
                (more_exprs (reference (array_var 5) null) no_exprs))
              null)
            (more_exprs (int_const (pos 7) null) no_exprs))
          null)
        (more_exprs (int_const (pos 3) null) no_exprs))
      null

-- At i = 1 the value is -2.
flattened-value : value (λ _. pos 1) flattened ≡ some (negsuc 1)
unfolding value ◌-ℤ◌ ◌*ℤ◌
flattened-value = refl

ensure_expression-translated_example :
    (a : Aff) × (to_affine_expr functions (λ v. v) some flattened ≡ some a)
unfolding ensure_expression ensure_expression_get_type operation_type IsInSpace value ◌-ℤ◌ ◌*ℤ◌
ensure_expression-translated_example =
    ensure_expression-translated functions at_point functions-IslLaws (λ v. v) (λ v h. refl) some
      (λ _. pos 1) (λ _. pos 1) (λ i d h. ap (λ _. pos 1) h) source {e' = flattened} (negsuc 1) refl
      (((tt, ((5, refl), tt)), (tt, tt)), (tt, tt)) refl

abbrev translated : Aff
translated = varying (λ q. floor_div (pos 2 *ℤ q 5 -ℤ pos 7) 3)

to_affine_expr-value_example : at_point translated (λ _. pos 1) ≡ negsuc 1
unfolding ensure_expression ensure_expression_get_type operation_type IsInSpace to_affine_expr
    operation_expr value ◌-ℤ◌ ◌*ℤ◌
to_affine_expr-value_example =
    to_affine_expr-value functions at_point functions-IslLaws (λ v. v) (λ v h. refl) some
      (λ _. pos 1) (λ _. pos 1) (λ i d h. ap (λ _. pos 1) h) source {e' = flattened} (negsuc 1)
      {a = translated} refl (((tt, ((5, refl), tt)), (tt, tt)), (tt, tt)) refl refl

abbrev predicates : IslSet Aff ((ℕ → ℤ) → Bool)
predicates = record {
  universe = λ q. true;
  empty = λ q. false;
  related = λ c a b q. compares c (at_point a q) (at_point b q);
  complement = λ s q. not (s q);
  intersection = λ s t q. s q && t q;
  union = λ s t q. s q || t q;
}

predicates-SetLaws : SetLaws predicates at_point (λ s q. s q)
predicates-SetLaws = record {
  member-universe = λ q. refl;
  member-empty = λ q. refl;
  member-related = λ c a b q. refl;
  member-complement = λ s q. refl;
  member-intersection = λ s t q. refl;
  member-union = λ s t q. refl;
}

-- e < 0, and not i == 2, for a given e.
abbrev guarded : Expr → Expr
guarded e =
    primitive PrimitiveOp.logic_and
      (more_exprs
        (primitive PrimitiveOp.compare_l
          (more_exprs e (more_exprs (int_const (pos 0) null) no_exprs)) null)
        (more_exprs
          (primitive PrimitiveOp.negate
            (more_exprs
              (primitive PrimitiveOp.compare_eq
                (more_exprs (reference (array_var 5) null)
                  (more_exprs (int_const (pos 2) null) no_exprs))
                null)
              no_exprs)
            null)
          no_exprs))
      null

abbrev guarded_set : (ℕ → ℤ) → Bool
guarded_set q = ltb_ℤ (at_point translated q) (pos 0) && not (same_int (q 5) (pos 2))

to_affine_set-member_example : guarded_set (λ _. pos 1) ≡ true
unfolding ensure_constraint ensure_expression ensure_expression_get_type operation_type IsInSpace
    to_affine_set to_affine_expr operation_expr holds value ◌-ℤ◌ ◌*ℤ◌
to_affine_set-member_example =
    to_affine_set-member functions predicates at_point (λ s q. s q) functions-IslLaws
      predicates-SetLaws (λ v. v) (λ v h. refl) some (λ _. pos 1) (λ _. pos 1)
      (λ i d h. ap (λ _. pos 1) h) (guarded source) {e' = guarded flattened} true {s = guarded_set}
      refl
      (
        (((((tt, ((5, refl), tt)), (tt, tt)), (tt, tt)), (tt, tt))),
        (((((5, refl), (tt, tt))), tt), tt),
      )
      refl refl
