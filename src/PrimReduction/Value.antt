-- ===== src/PrimReduction/Value.antt =====
-- frontend/prim_reduction.cpp: the values of expressions, with the reduction of constants and without it.
use arrp.Common.{
  ℕ, suc, ◌/◌, ◌≡◌, refl, sym, ap, ap₂, subst, ◌∙◌, List, [], ◌∷◌, Option, none, some, arith,
}
use arrp.Common.Int.{ℤ, pos, negsuc, ◌+ℤ◌, ◌-ℤ◌, ◌*ℤ◌}
use arrp.Common.Ring.{opposite}
use arrp.Common.Partial.{◌>>=◌, some_inj, >>=-eq-some}
use arrp.Primitive.{PrimitiveType}
use arrp.Primitive.Op.{PrimitiveOp}
use arrp.Primitive.ResultType.{result_type}
use arrp.Functional.{Expr, Exprs, int_const, reference, primitive, array_var, no_exprs, more_exprs}
use arrp.PrimReduction.{
  Gmp, Reduced, unchanged, constant, ended, scalar_types, reduce_operands, reduce_result,
  reduce_typed, reduce_primitive, to_i, c_i, combine, apply_to,
}

-- Division that rounds towards zero; none by zero.
abbrev pub truncated_div : ℤ → ℤ → Option ℤ
truncated_div (pos a) (pos (suc k)) = some (pos (a / suc k))
truncated_div (negsuc a) (pos (suc k)) = some (opposite (pos (suc a / suc k)))
truncated_div (pos a) (negsuc k) = some (opposite (pos (a / suc k)))
truncated_div (negsuc a) (negsuc k) = some (pos (suc a / suc k))
truncated_div a _ = none

-- What is documented of GMP.
pub record GmpLaws (gmp : Gmp) : Type 0 where
  pub plus_lem : (a b : ℤ) → gmp.plus a b ≡ a +ℤ b
  pub minus_lem : (a b : ℤ) → gmp.minus a b ≡ a -ℤ b
  pub times_lem : (a b : ℤ) → gmp.times a b ≡ a *ℤ b
  pub negated_lem : (a : ℤ) → gmp.negated a ≡ opposite a
  pub quotient_lem : (a b : ℤ) → gmp.quotient a b ≡ truncated_div a b

-- The value of an operation on integers.
abbrev pub operation_value : PrimitiveOp → List ℤ → Option ℤ
operation_value PrimitiveOp.add (a ∷ b ∷ []) = some (a +ℤ b)
operation_value PrimitiveOp.subtract (a ∷ b ∷ []) = some (a -ℤ b)
operation_value PrimitiveOp.negate (a ∷ []) = some (opposite a)
operation_value PrimitiveOp.multiply (a ∷ b ∷ []) = some (a *ℤ b)
operation_value PrimitiveOp.divide_integer (a ∷ b ∷ []) = truncated_div a b
operation_value _ _ = none

-- The value of an expression, for those of the array variables.
unfoldable mutual
  pub value : (ℕ → ℤ) → Expr → Option ℤ
  value p (int_const v t) = some v
  value p (reference (array_var i) t) = some (p i)
  value p (primitive op es t) = values p es >>= operation_value op
  value p _ = none

  pub values : (ℕ → ℤ) → Exprs → Option (List ℤ)
  values p no_exprs = some []
  values p (more_exprs e es) = value p e >>= λ v. values p es >>= λ vs. some (v ∷ vs)

-- What a reduction may give where the operation has the value u.
abbrev pub Good : Reduced → ℤ → Type 0
Good unchanged u = Unit
Good (constant w t) u = w ≡ u
Good ended u = ⊥

-- An operand that is read as a number has that value.
abbrev Reads : Option ℤ → ℤ → Type 0
Reads none v = Unit
Reads (some w) v = w ≡ v

to_i-Reads : (p : ℕ → ℤ) (e : Expr) {v : ℤ} → value p e ≡ some v → Reads (to_i e) v
unfolding value
to_i-Reads p (int_const w t) h = some_inj h
to_i-Reads p e h = tt

combine-Good :
    (f : ℤ → ℤ → Option ℤ) (x y : Option ℤ) (t : PrimitiveType) (v w : ℤ) {u : ℤ}
    → Reads x v
    → Reads y w
    → f v w ≡ some u
    → Good (combine f x y t) u
combine-Good f (some a) (some b) t v w {u} h k e =
    subst (λ o. Good (c_i o t) u) (sym (ap₂ f h k ∙ e)) refl
combine-Good f (some a) none t v w h k e = tt
combine-Good f none y t v w h k e = tt

module _ (gmp : Gmp) (laws : GmpLaws gmp) (p : ℕ → ℤ) where
  two_values :
      (a b : Expr) (es : Exprs) (v w : ℤ)
      → values p (more_exprs a (more_exprs b es)) ≡ some (v ∷ w ∷ [])
      → Reads (to_i a) v × Reads (to_i b) w
  unfolding value
  two_values a b es v w h =
      let (x, hx, h') = >>=-eq-some (value p a) _ h in
      let (xs, hxs, same) = >>=-eq-some (values p (more_exprs b es)) _ h' in
      let (y, hy, h'') = >>=-eq-some (value p b) _ hxs in
      let (ys, hys, same') = >>=-eq-some (values p es) _ h'' in
      let all : x ∷ y ∷ ys ≡ v ∷ w ∷ [] = ap (λ l. x ∷ l) (some_inj same') ∙ some_inj same in
      (
        to_i-Reads p a (hx ∙ ap some (head_same x v (y ∷ ys) (w ∷ []) all)),
        to_i-Reads p b (hy ∙ ap some (second_same x v y w ys [] all)),
      )
    where
      head_same : (x v : ℤ) (xs vs : List ℤ) → x ∷ xs ≡ v ∷ vs → x ≡ v
      head_same x v xs vs h = cc

      second_same : (x v y w : ℤ) (xs vs : List ℤ) → x ∷ y ∷ xs ≡ v ∷ w ∷ vs → y ≡ w
      second_same x v y w xs vs h = cc

  one_value :
      (a : Expr) (es : Exprs) (v : ℤ)
      → values p (more_exprs a es) ≡ some (v ∷ [])
      → Reads (to_i a) v
  unfolding value
  one_value a es v h =
      let (x, hx, h') = >>=-eq-some (value p a) _ h in
      let (xs, hxs, same) = >>=-eq-some (values p es) _ h' in
      to_i-Reads p a (hx ∙ ap some (head_same x v xs (some_inj same)))
    where
      head_same : (x v : ℤ) (xs : List ℤ) → x ∷ xs ≡ v ∷ [] → x ≡ v
      head_same x v xs h = cc

  applied-Good :
      (x : Option ℤ) (t : PrimitiveType) (v : ℤ) {u : ℤ}
      → Reads x v
      → some (opposite v) ≡ some u
      → Good (apply_to gmp.negated x t) u
  applied-Good (some a) t v h e = laws.negated_lem a ∙ ap opposite h ∙ some_inj e
  applied-Good none t v h e = tt

  reduce_operands-Good :
      (op : PrimitiveOp) (es : Exprs) (vs : List ℤ) (t : PrimitiveType) {u : ℤ}
      → values p es ≡ some vs
      → operation_value op vs ≡ some u
      → Good (reduce_operands gmp op es t) u
  unfolding reduce_operands
  reduce_operands-Good PrimitiveOp.add (more_exprs a (more_exprs b es)) (v ∷ w ∷ []) t h e =
      let (x, y) = two_values a b es v w h in
      combine-Good (λ v w. some (gmp.plus v w)) (to_i a) (to_i b) t v w x y
        (ap some (laws.plus_lem v w) ∙ e)
  reduce_operands-Good PrimitiveOp.subtract (more_exprs a (more_exprs b es)) (v ∷ w ∷ []) t h e =
      let (x, y) = two_values a b es v w h in
      combine-Good (λ v w. some (gmp.minus v w)) (to_i a) (to_i b) t v w x y
        (ap some (laws.minus_lem v w) ∙ e)
  reduce_operands-Good PrimitiveOp.multiply (more_exprs a (more_exprs b es)) (v ∷ w ∷ []) t h e =
      let (x, y) = two_values a b es v w h in
      combine-Good (λ v w. some (gmp.times v w)) (to_i a) (to_i b) t v w x y
        (ap some (laws.times_lem v w) ∙ e)
  reduce_operands-Good PrimitiveOp.divide_integer (more_exprs a (more_exprs b es)) (v ∷ w ∷ []) t h
        e =
      let (x, y) = two_values a b es v w h in
      combine-Good gmp.quotient (to_i a) (to_i b) t v w x y (laws.quotient_lem v w ∙ e)
  reduce_operands-Good PrimitiveOp.negate (more_exprs a es) (v ∷ []) t h e =
      applied-Good (to_i a) t v (one_value a es v h) e
  reduce_operands-Good op es vs t h e = ground arith

  pub reduce_primitive-Good :
      (op : PrimitiveOp) (es : Exprs) (vs : List ℤ) {u : ℤ}
      → values p es ≡ some vs
      → operation_value op vs ≡ some u
      → Good (reduce_primitive gmp op es) u
  unfolding reduce_primitive
  reduce_primitive-Good op es vs {u} h e = with_types (scalar_types es)
    where
      with_result : (o : Option PrimitiveType) → Good (reduce_result gmp op es o) u
      with_result none = tt
      with_result (some t) = reduce_operands-Good op es vs t h e

      with_types : (o : Option (List PrimitiveType)) → Good (reduce_typed gmp op es o) u
      with_types none = tt
      with_types (some ts) = with_result (result_type op ts)
