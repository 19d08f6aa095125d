-- ===== src/LinearExpr/Operation.antt =====
-- frontend/linear_expr_gen.cpp and frontend/array_to_isl.cpp: the translation of one operation.
use arrp.Common.{
  ℕ, suc, ◌≡◌, refl, sym, ap, ap₂, subst, ◌∙◌, inl, inr, true, false, Bool-cases, ◌||◌, List, [],
  ◌∷◌, Option, some, arith,
}
use arrp.Common.Int.{ℤ, pos, ◌+ℤ◌, ◌-ℤ◌, ◌*ℤ◌}
use arrp.Common.Ring.{mul_comm}
use arrp.Common.Partial.{some_inj}
use arrp.Primitive.Op.{PrimitiveOp}
use arrp.LinearExpr.{
  AffineExprType, affine_constant, affine_variable, is_affine_constant, constant_if, operation_type,
  Isl, modulo_case, divide_case, multiply_case, operation_expr,
}
use arrp.LinearExpr.Value.{floor_div, floor_mod, divided, remainder, operation_value, IslLaws}

module _ {Aff : Type 0} (isl : Isl Aff) where
  -- What the check takes for constant is constant for isl.
  abbrev pub Agrees : AffineExprType → Aff → Type 0
  Agrees t a = is_affine_constant t ≡ true → isl.is_constant a ≡ true

  abbrev pub AllAgree : List AffineExprType → List Aff → Type 0
  AllAgree [] [] = Unit
  AllAgree (t ∷ ts) (a ∷ rest) = Agrees t a × AllAgree ts rest
  AllAgree _ _ = ⊥

  -- The expressions have the values at a point.
  abbrev pub AllAt : (Aff → (ℕ → ℤ) → ℤ) → (ℕ → ℤ) → List Aff → List ℤ → Type 0
  AllAt eval q [] [] = Unit
  AllAt eval q (a ∷ rest) (v ∷ vs) = (eval a q ≡ v) × AllAt eval q rest vs
  AllAt eval q _ _ = ⊥

module _ {Aff : Type 0} (isl : Isl Aff) (eval : Aff → (ℕ → ℤ) → ℤ) (laws : IslLaws isl eval) where
  abbrev Accepted : Option Aff → AffineExprType → Type 0
  Accepted o t = (a : Aff) × (o ≡ some a) × Agrees isl t a

  -- Where the check takes the operation for variable there is nothing to agree on.
  variable-Agrees : {t : AffineExprType} (a : Aff) → some affine_variable ≡ some t → Agrees isl t a
  variable-Agrees a h = λ e. absurd (impossible (some_inj h) e)
    where
      impossible : {t : AffineExprType} → affine_variable ≡ t → is_affine_constant t ≡ true → ⊥
      impossible h e = cc

  multiply_accepted :
      (x y : AffineExprType) (ts : List AffineExprType) (a b : Aff) {t : AffineExprType}
      → operation_type PrimitiveOp.multiply (x ∷ y ∷ ts) ≡ some t
      → Agrees isl x a
      → Agrees isl y b
      → Accepted (multiply_case isl a b) t
  unfolding operation_type
  multiply_accepted affine_constant affine_constant ts a b h f g =
      (isl.scale (isl.constant a) b, rw (f refl) refl, λ _. laws.scale-constant _ b (g refl))
  multiply_accepted affine_constant affine_variable ts a b h f g =
      (isl.scale (isl.constant a) b, rw (f refl) refl, variable-Agrees _ h)
  multiply_accepted affine_variable affine_constant ts a b h f g =
      elim (Bool-cases (isl.is_constant a)) [
        | inl e ↦ (isl.scale (isl.constant a) b, rw e refl, variable-Agrees _ h)
        | inr e ↦ (isl.scale (isl.constant b) a, rw (e, g refl) refl, variable-Agrees _ h)
      ]
  multiply_accepted affine_variable affine_variable ts a b h f g = cc

  sum-Agrees :
      (x y : AffineExprType) (ts : List AffineExprType) (a b c : Aff) {t : AffineExprType}
      → operation_type PrimitiveOp.add (x ∷ y ∷ ts) ≡ some t
      → Agrees isl x a
      → Agrees isl y b
      → (isl.is_constant a ≡ true → isl.is_constant b ≡ true → isl.is_constant c ≡ true)
      → Agrees isl t c
  unfolding operation_type
  sum-Agrees affine_constant affine_constant ts a b c h f g k = λ _. k (f refl) (g refl)
  sum-Agrees affine_constant affine_variable ts a b c h f g k = variable-Agrees c h
  sum-Agrees affine_variable y ts a b c h f g k = variable-Agrees c h

  multiply_value :
      (q : ℕ → ℤ) (a b c : Aff) (v w : ℤ)
      → eval a q ≡ v
      → eval b q ≡ w
      → multiply_case isl a b ≡ some c
      → isl.is_constant a || isl.is_constant b ≡ true
      → eval c q ≡ v *ℤ w
  multiply_value q a b c v w ea eb h k = elim (Bool-cases (isl.is_constant a)) [
    | inl e ↦
        let same : isl.scale (isl.constant a) b ≡ c = some_inj (rw e at h) in
        subst (λ d. eval d q ≡ v *ℤ w) same
          (laws.eval-scale (isl.constant a) b q ∙ ap₂ ◌*ℤ◌ (sym (laws.eval-constant a q e) ∙ ea) eb)
    | inr e ↦ elim (Bool-cases (isl.is_constant b)) [
      | inl d ↦
          let same : isl.scale (isl.constant b) a ≡ c = some_inj (rw (e, d) at h) in
          subst (λ d. eval d q ≡ v *ℤ w) same
            (laws.eval-scale (isl.constant b) a q
              ∙ ap₂ ◌*ℤ◌ (sym (laws.eval-constant b q d) ∙ eb) ea
              ∙ mul_comm w v)
      | inr d ↦ absurd (impossible (rw (e, d) at k))
    ]
  ]
    where
      impossible : false ≡ true → ⊥
      impossible h = cc

  -- What is the translation of an operation: it has the value of the operation.
  abbrev pub Translation : (ℕ → ℤ) → Option Aff → AffineExprType → ℤ → Type 0
  Translation q o t u = (c : Aff) × (o ≡ some c) × Agrees isl t c × (eval c q ≡ u)

  multiply_translated :
      (q : ℕ → ℤ) (x y : AffineExprType) (ts : List AffineExprType) (a b : Aff) (v w : ℤ)
      {t : AffineExprType}
      → operation_type PrimitiveOp.multiply (x ∷ y ∷ ts) ≡ some t
      → Agrees isl x a
      → Agrees isl y b
      → eval a q ≡ v
      → eval b q ≡ w
      → Translation q (multiply_case isl a b) t (v *ℤ w)
  unfolding operation_type
  multiply_translated q x y ts a b v w h f g ea eb =
      let (c, e, agrees) = multiply_accepted x y ts a b h f g in
      (c, e, agrees, multiply_value q a b c v w ea eb e (one_constant x y h f g))
    where
      one_constant :
          (x y : AffineExprType) {t : AffineExprType}
          → operation_type PrimitiveOp.multiply (x ∷ y ∷ ts) ≡ some t
          → Agrees isl x a
          → Agrees isl y b
          → isl.is_constant a || isl.is_constant b ≡ true
      one_constant affine_constant y h f g = rw (f refl) refl
      one_constant affine_variable affine_constant h f g = ground (arith, g refl)
      one_constant affine_variable affine_variable h f g = cc

  -- A quotient or a remainder agrees with the check as the dividend does.
  dividend-Agrees :
      (x : AffineExprType) (a c : Aff) {t : AffineExprType}
      → some (constant_if (is_affine_constant x)) ≡ some t
      → Agrees isl x a
      → (isl.is_constant a ≡ true → isl.is_constant c ≡ true)
      → Agrees isl t c
  dividend-Agrees affine_constant a c h f k = λ _. k (f refl)
  dividend-Agrees affine_variable a c h f k = variable-Agrees c h

  divide_translated :
      (q : ℕ → ℤ) (x : AffineExprType) (a b : Aff) (v w u : ℤ) {t : AffineExprType}
      → some (constant_if (is_affine_constant x)) ≡ some t
      → Agrees isl x a
      → isl.is_constant b ≡ true
      → eval a q ≡ v
      → eval b q ≡ w
      → divided v w ≡ some u
      → Translation q (divide_case isl a b) t u
  divide_translated q x a b v (pos (suc k)) u h f g ea eb e =
      let (c, made, known, constant) = laws.floor_over_lem a k in
      (
        c,
        rw g (ap (isl.floor_over a) (sym (laws.eval-constant b q g) ∙ eb) ∙ made),
        dividend-Agrees x a c h f constant,
        known q ∙ ap (λ n. floor_div n (suc k)) ea ∙ some_inj e,
      )
  divide_translated q x a b v w u h f g ea eb e = cc

  modulo_translated :
      (q : ℕ → ℤ) (x : AffineExprType) (a b : Aff) (v w u : ℤ) {t : AffineExprType}
      → some (constant_if (is_affine_constant x)) ≡ some t
      → Agrees isl x a
      → isl.is_constant b ≡ true
      → eval a q ≡ v
      → eval b q ≡ w
      → remainder v w ≡ some u
      → Translation q (modulo_case isl a b) t u
  modulo_translated q x a b v (pos (suc k)) u h f g ea eb e =
      let (c, made, known, constant) = laws.mod_over_lem a k in
      (
        c,
        rw g (ap (isl.mod_over a) (sym (laws.eval-constant b q g) ∙ eb) ∙ made),
        dividend-Agrees x a c h f constant,
        known q ∙ ap (λ n. floor_mod n (suc k)) ea ∙ some_inj e,
      )
  modulo_translated q x a b v w u h f g ea eb e = cc

  -- An operation that is affine, and has a value, can be translated, and keeps its value.
  pub operation_translated :
      (q : ℕ → ℤ) (op : PrimitiveOp) (ts : List AffineExprType) (rest : List Aff) (vs : List ℤ)
      {t : AffineExprType} {u : ℤ}
      → operation_type op ts ≡ some t
      → AllAgree isl ts rest
      → AllAt isl eval q rest vs
      → operation_value op vs ≡ some u
      → Translation q (operation_expr isl op rest) t u
  unfolding operation_type operation_expr
  operation_translated q PrimitiveOp.add (x ∷ y ∷ ts) (a ∷ b ∷ rest) (v ∷ w ∷ []) h (f, (g, _))
        (ea, (eb, _)) e =
      (
        isl.plus a b,
        refl,
        sum-Agrees x y ts a b (isl.plus a b) h f g (laws.plus-constant a b),
        laws.eval-plus a b q ∙ ap₂ ◌+ℤ◌ ea eb ∙ some_inj e,
      )
  operation_translated q PrimitiveOp.subtract (x ∷ y ∷ ts) (a ∷ b ∷ rest) (v ∷ w ∷ []) h (f, (g, _))
        (ea, (eb, _)) e =
      (
        isl.minus a b,
        refl,
        sum-Agrees x y ts a b (isl.minus a b) h f g (laws.minus-constant a b),
        laws.eval-minus a b q ∙ ap₂ ◌-ℤ◌ ea eb ∙ some_inj e,
      )
  operation_translated q PrimitiveOp.multiply (x ∷ y ∷ ts) (a ∷ b ∷ rest) (v ∷ w ∷ []) h (f, (g, _))
        (ea, (eb, _)) e =
      let (c, made, agrees, known) = multiply_translated q x y ts a b v w h f g ea eb in
      (c, made, agrees, known ∙ some_inj e)
  operation_translated q PrimitiveOp.divide_integer (x ∷ affine_constant ∷ ts) (a ∷ b ∷ rest)
        (v ∷ w ∷ []) {u} h (f, (g, _)) (ea, (eb, _)) e =
      divide_translated q x a b v w u h f (g refl) ea eb e
  operation_translated q PrimitiveOp.modulo (x ∷ affine_constant ∷ ts) (a ∷ b ∷ rest) (v ∷ w ∷ [])
        {u} h (f, (g, _)) (ea, (eb, _)) e =
      modulo_translated q x a b v w u h f (g refl) ea eb e
  operation_translated q op (x ∷ y ∷ ts) [] vs h g l e = absurd g
  operation_translated q op (x ∷ y ∷ ts) (a ∷ []) vs h g l e = absurd g.1
  operation_translated q op (x ∷ y ∷ ts) (a ∷ b ∷ rest) [] h g l e = absurd l
  operation_translated q op (x ∷ y ∷ ts) (a ∷ b ∷ rest) (v ∷ []) h g l e = absurd l.1
  operation_translated q op ts rest vs h g l e = cc
