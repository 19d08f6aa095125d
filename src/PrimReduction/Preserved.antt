-- ===== src/PrimReduction/Preserved.antt =====
-- frontend/prim_reduction.cpp and frontend/type_check.cpp: the value of a visited expression.
use arrp.Common.{ℕ, ◌≡◌, ◌≢◌, refl, ap, subst, List, [], ◌∷◌, Option, none, some}
use arrp.Common.Int.{ℤ}
use arrp.Common.Partial.{>>=-eq-some, some_inj}
use arrp.Primitive.{PrimitiveType}
use arrp.Primitive.Op.{PrimitiveOp}
use arrp.Primitive.ResultType.{result_type}
use arrp.FuncType.{
  FuncType, TypePtr, null, to, scalar_type, array_type, function_type, meta_type, ArraySizeVec,
}
use arrp.FuncType.ArraySize.{common_array_size}
use arrp.TypeCheck.Typed.{
  TypeError, Typed, typed, rejected, ◌>>=◌, or_throw, stopped, size_mismatch, invalid_operands,
}
use arrp.TypeCheck.Primitive.{visit_operands, visit_primitive}
use arrp.Functional.{
  Expr, Exprs, int_const, reference, primitive, array_var, no_exprs, more_exprs, type_of,
}
use arrp.PrimReduction.{
  Gmp, Reduced, unchanged, constant, ended, reduce_primitive, target, targets, finish, visit,
  visit_exprs,
}
use arrp.PrimReduction.Value.{GmpLaws, operation_value, value, values, Good, reduce_primitive-Good}

-- The program has not ended.
abbrev Runs {ℓ} : {A : Type ℓ} → Typed A → Type 0
Runs (typed a) = Unit
Runs (rejected error) = error ≢ stopped

>>=-Runs {ℓ κ} :
    {A : Type ℓ} {B : Type κ} (m : Typed A) (k : A → Typed B)
    → Runs m
    → ((a : A) → Runs (k a))
    → Runs (m >>= k)
>>=-Runs (typed a) k h g = g a
>>=-Runs (rejected error) k h g = h

or_throw-Runs {ℓ} :
    {A : Type ℓ} (o : Option A) (error : TypeError) → error ≢ stopped → Runs (or_throw o error)
or_throw-Runs (some a) error h = tt
or_throw-Runs none error h = h

visit_operands-Runs :
    (common : ArraySizeVec) (elems : List PrimitiveType) (ts : List FuncType)
    → Runs (visit_operands common elems ts)
unfolding visit_operands
visit_operands-Runs common elems [] = tt
visit_operands-Runs common elems (function_type ps v ∷ ts) = λ e. cc
visit_operands-Runs common elems (array_type size t ∷ ts) =
    >>=-Runs (or_throw (common_array_size common size) size_mismatch) _
      (or_throw-Runs (common_array_size common size) size_mismatch (λ e. cc))
      (λ c. visit_operands-Runs c _ ts)
visit_operands-Runs common elems (scalar_type p ∷ ts) = visit_operands-Runs common _ ts
visit_operands-Runs common elems (meta_type c ∷ ts) = λ e. cc

visit_primitive-Runs : (op : PrimitiveOp) (ts : List FuncType) → Runs (visit_primitive op ts)
unfolding visit_primitive
visit_primitive-Runs op ts =
    >>=-Runs (visit_operands [] [] ts) _ (visit_operands-Runs [] [] ts) (λ r.
      >>=-Runs (or_throw (result_type op r.1) invalid_operands) _
        (or_throw-Runs (result_type op r.1) invalid_operands (λ e. cc)) (λ t. tt))

target-Runs : (t : TypePtr) → Runs (target t)
target-Runs null = λ e. cc
target-Runs (to t) = tt

targets-Runs : (es : Exprs) → Runs (targets es)
targets-Runs no_exprs = tt
targets-Runs (more_exprs e es) =
    >>=-Runs (target (type_of e)) _ (target-Runs (type_of e))
      (λ t. >>=-Runs (targets es) _ (targets-Runs es) (λ ts. tt))

module _ (gmp : Gmp) (laws : GmpLaws gmp) (p : ℕ → ℤ) where
  -- A visited expression has the value, or it is refused; the program has not ended.
  abbrev pub HasValue : Typed Expr → ℤ → Type 0
  HasValue (typed e) v = value p e ≡ some v
  HasValue (rejected error) v = error ≢ stopped

  abbrev HaveValues : Typed Exprs → List ℤ → Type 0
  HaveValues (typed es) vs = values p es ≡ some vs
  HaveValues (rejected error) vs = error ≢ stopped

  finish-HasValue :
      (op : PrimitiveOp) (es : Exprs) (vs : List ℤ) (r : Reduced) {u : ℤ}
      → values p es ≡ some vs
      → operation_value op vs ≡ some u
      → Good r u
      → HasValue (finish op es r) u
  unfolding finish value
  finish-HasValue op es vs (constant w t) h e g = ap some g
  finish-HasValue op es vs ended h e g = absurd g
  finish-HasValue op es vs unchanged {u} h e g =
      of_type (targets es >>= visit_primitive op)
        (>>=-Runs (targets es) _ (targets-Runs es) (visit_primitive-Runs op))
    where
      of_type :
          (m : Typed FuncType) → Runs m → HasValue (m >>= λ t. typed (primitive op es (to t))) u
      of_type (typed t) r = rw h e
      of_type (rejected error) r = r

  operation-HasValue :
      (op : PrimitiveOp) (m : Typed Exprs) (vs : List ℤ) {u : ℤ}
      → HaveValues m vs
      → operation_value op vs ≡ some u
      → HasValue (m >>= λ es. finish op es (reduce_primitive gmp op es)) u
  operation-HasValue op (typed es) vs h e =
      finish-HasValue op es vs (reduce_primitive gmp op es) h e
        (reduce_primitive-Good gmp laws p op es vs h e)
  operation-HasValue op (rejected error) vs h e = h

  more-HaveValues :
      (m : Typed Expr) (ms : Typed Exprs) (v : ℤ) (vs : List ℤ)
      → HasValue m v
      → HaveValues ms vs
      → HaveValues (m >>= λ e. ms >>= λ es. typed (more_exprs e es)) (v ∷ vs)
  unfolding value
  more-HaveValues (typed e) (typed es) v vs h k = rw (h, k) refl
  more-HaveValues (typed e) (rejected error) v vs h k = k
  more-HaveValues (rejected error) ms v vs h k = h

  other-HasValue :
      (e : Expr) (t : TypePtr) (v : ℤ) → value p e ≡ some v → HasValue (target t >>= λ _. typed e) v
  other-HasValue e null v h = λ e. cc
  other-HasValue e (to t) v h = h

  mutual
    unfolding visit value

    preserved : (e : Expr) (v : ℤ) → value p e ≡ some v → HasValue (visit gmp e) v
    preserved (int_const w null) v h = h
    preserved (int_const w (to t)) v h = h
    preserved (reference (array_var i) t) v h = h
    preserved (primitive op es t) v h =
        let (vs, hs, hv) = >>=-eq-some (values p es) (operation_value op) h in
        operation-HasValue op (visit_exprs gmp es) vs (all_preserved es vs hs) hv
    preserved e v h = cc

    all_preserved :
        (es : Exprs) (vs : List ℤ) → values p es ≡ some vs → HaveValues (visit_exprs gmp es) vs
    all_preserved no_exprs vs h = h
    all_preserved (more_exprs e es) vs h =
        let (v, hv, h') = >>=-eq-some (value p e) _ h in
        let (ws, hs, same) = >>=-eq-some (values p es) _ h' in
        subst (HaveValues (visit_exprs gmp (more_exprs e es))) (some_inj same) (
          more-HaveValues (visit gmp e) (visit_exprs gmp es) v ws (preserved e v hv)
            (all_preserved es ws hs))

  -- The reduction of constants keeps values: where an expression has a value, the program does not end, and
  -- the expression that its visit gives has the same value.
  pub visit-HasValue : (e : Expr) (v : ℤ) → value p e ≡ some v → HasValue (visit gmp e) v
  visit-HasValue e v h = preserved e v h
