-- ===== src/PrimReduction/Types.antt =====
-- frontend/prim_reduction.cpp: the type of a reduced operation.
use arrp.Common.{◌≡◌, refl, sym, ap, ◌∙◌, List, [], ◌∷◌, ◌++◌, map, Option, none, some}
use arrp.Common.Int.{ℤ}
use arrp.Common.Partial.{some_inj}
use mathlib.Core.List.{append_assoc, append-nil}
use arrp.Primitive.{PrimitiveType}
use arrp.Primitive.Op.{PrimitiveOp}
use arrp.Primitive.ResultType.{result_type}
use arrp.FuncType.{TypePtr, to, scalar_type, type_for}
use arrp.TypeCheck.Typed.{typed, ◌>>=◌}
use arrp.TypeCheck.Primitive.{visit_operands, visit_primitive}
use arrp.Functional.{Exprs, no_exprs, more_exprs, type_of}
use arrp.PrimReduction.{
  Gmp, constant, scalar_primitive, scalar_types, reduce_operands, reduce_result, reduce_typed,
  reduce_primitive, targets, prepend, to_i, c_i, combine, apply_to,
}

scalar_operands :
    (ts : List PrimitiveType) (elems : List PrimitiveType)
    → visit_operands [] elems (map scalar_type ts) ≡ typed ([], elems ++ ts)
unfolding visit_operands
scalar_operands [] elems = ap (λ es. typed ([], es)) (sym (append-nil elems))
scalar_operands (t ∷ ts) elems =
    scalar_operands ts (elems ++ t ∷ [])
    ∙ ap (λ es. typed ([], es)) (append_assoc elems (t ∷ []) ts)

visit_primitive-scalars :
    (op : PrimitiveOp) (ts : List PrimitiveType) {t : PrimitiveType}
    → result_type op ts ≡ some t
    → visit_primitive op (map scalar_type ts) ≡ typed (scalar_type t)
unfolding visit_primitive type_for
visit_primitive-scalars op ts h = rw (scalar_operands ts [], h) refl

prepend-eq-some :
    (o : Option PrimitiveType) (q : Option (List PrimitiveType)) {ts : List PrimitiveType}
    → prepend o q ≡ some ts
    → (p : PrimitiveType) × (ps : List PrimitiveType) × (o ≡ some p) × (q ≡ some ps) × (p ∷ ps ≡ ts)
prepend-eq-some (some p) (some ps) h = (p, ps, refl, refl, some_inj h)
prepend-eq-some (some p) none h = cc
prepend-eq-some none q h = cc

scalar_primitive_lem :
    (t : TypePtr) {p : PrimitiveType} → scalar_primitive t ≡ some p → t ≡ to (scalar_type p)
scalar_primitive_lem (to (scalar_type q)) h = ap (λ r. to (scalar_type r)) (some_inj h)
scalar_primitive_lem t h = cc

scalar_targets :
    (es : Exprs) {ts : List PrimitiveType}
    → scalar_types es ≡ some ts
    → targets es ≡ typed (map scalar_type ts)
scalar_targets no_exprs h = ap (λ l. typed (map scalar_type l)) (some_inj h)
scalar_targets (more_exprs e es) h =
    let (p, ps, ho, hq, same) =
      prepend-eq-some (scalar_primitive (type_of e)) (scalar_types es) h in
    rw (scalar_primitive_lem (type_of e) ho, scalar_targets es hq)
      (ap (λ l. typed (map scalar_type l)) same)

combine-type :
    (f : ℤ → ℤ → Option ℤ) (x y : Option ℤ) (t : PrimitiveType) {v : ℤ} {u : PrimitiveType}
    → combine f x y t ≡ constant v u
    → t ≡ u
combine-type f (some a) (some b) t {v} {u} h = result (f a b) h
  where
    result : (o : Option ℤ) → c_i o t ≡ constant v u → t ≡ u
    result (some w) h = cc
    result none h = cc
combine-type f (some a) none t h = cc
combine-type f none y t h = cc

reduce_operands-type :
    (gmp : Gmp) (op : PrimitiveOp) (es : Exprs) (t : PrimitiveType) {v : ℤ} {u : PrimitiveType}
    → reduce_operands gmp op es t ≡ constant v u
    → t ≡ u
unfolding reduce_operands
reduce_operands-type gmp PrimitiveOp.add (more_exprs a (more_exprs b es)) t h =
    combine-type (λ v w. some (gmp.plus v w)) (to_i a) (to_i b) t h
reduce_operands-type gmp PrimitiveOp.subtract (more_exprs a (more_exprs b es)) t h =
    combine-type (λ v w. some (gmp.minus v w)) (to_i a) (to_i b) t h
reduce_operands-type gmp PrimitiveOp.multiply (more_exprs a (more_exprs b es)) t h =
    combine-type (λ v w. some (gmp.times v w)) (to_i a) (to_i b) t h
reduce_operands-type gmp PrimitiveOp.divide_integer (more_exprs a (more_exprs b es)) t h =
    combine-type gmp.quotient (to_i a) (to_i b) t h
reduce_operands-type gmp PrimitiveOp.negate (more_exprs a es) t {v} {u} h = applied (to_i a) h
  where
    applied : (o : Option ℤ) → apply_to gmp.negated o t ≡ constant v u → t ≡ u
    applied (some w) h = cc
    applied none h = cc
reduce_operands-type gmp op es t h = cc

-- A reduced operation has the type that it has without the reduction.
pub reduce_primitive-type :
    (gmp : Gmp) (op : PrimitiveOp) (es : Exprs) {v : ℤ} {u : PrimitiveType}
    → reduce_primitive gmp op es ≡ constant v u
    → (targets es >>= visit_primitive op) ≡ typed (scalar_type u)
unfolding reduce_primitive
reduce_primitive-type gmp op es {v} {u} h = go (scalar_types es) refl h
  where
    with_result :
        (ts : List PrimitiveType) (o : Option PrimitiveType)
        → scalar_types es ≡ some ts
        → result_type op ts ≡ o
        → reduce_result gmp op es o ≡ constant v u
        → (targets es >>= visit_primitive op) ≡ typed (scalar_type u)
    with_result ts none hs hr h = cc
    with_result ts (some t) hs hr h =
        ap (λ m. m >>= visit_primitive op) (scalar_targets es hs)
        ∙ visit_primitive-scalars op ts hr
        ∙ ap (λ r. typed (scalar_type r)) (reduce_operands-type gmp op es t h)

    go :
        (o : Option (List PrimitiveType))
        → scalar_types es ≡ o
        → reduce_typed gmp op es o ≡ constant v u
        → (targets es >>= visit_primitive op) ≡ typed (scalar_type u)
    go none hs h = cc
    go (some ts) hs h = with_result ts (result_type op ts) hs refl h
