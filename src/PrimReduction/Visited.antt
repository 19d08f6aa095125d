-- ===== src/PrimReduction/Visited.antt =====
-- frontend/prim_reduction.cpp: the types of expressions, with the reduction of constants and without it.
use arrp.Common.{◌≡◌, refl, sym, ap, subst, ◌∙◌, ◌⊎◌, inl, inr, List, [], ◌∷◌}
use arrp.Primitive.{int32}
use arrp.Primitive.Op.{PrimitiveOp}
use arrp.FuncType.{FuncType, TypePtr, null, to, scalar_type}
use arrp.TypeCheck.Typed.{Typed, typed, rejected, ◌>>=◌, stopped}
use arrp.TypeCheck.Primitive.{visit_primitive}
use arrp.Functional.{
  Expr, Exprs, int_const, bool_const, reference, primitive, other_expr, array_var, identifier,
  func_var, no_exprs, more_exprs, type_of,
}
use arrp.PrimReduction.{
  Gmp, Reduced, unchanged, constant, ended, reduce_primitive, target, targets, finish, visit,
  visit_exprs,
}
use arrp.PrimReduction.Types.{reduce_primitive-type}

-- The type of an expression, without any reduction.
unfoldable mutual
  pub type_expr : Expr → Typed FuncType
  type_expr (int_const v null) = typed (scalar_type int32)
  type_expr (reference (array_var i) t) = typed (scalar_type int32)
  type_expr (primitive op es t) = type_exprs es >>= visit_primitive op
  type_expr e = target (type_of e)

  pub type_exprs : Exprs → Typed (List FuncType)
  type_exprs no_exprs = typed []
  type_exprs (more_exprs e es) = type_expr e >>= λ t. type_exprs es >>= λ ts. typed (t ∷ ts)

-- The visit of an expression and its type: the visited expression has that type, the error is the same, or the
-- program has ended.
abbrev pub Keeps : Typed Expr → Typed FuncType → Type 0
Keeps (typed e) t = (u : FuncType) × (type_of e ≡ to u) × (t ≡ typed u)
Keeps (rejected error) t = (error ≡ stopped) ⊎ (t ≡ rejected error)

abbrev KeepAll : Typed Exprs → Typed (List FuncType) → Type 0
KeepAll (typed es) t = (us : List FuncType) × (targets es ≡ typed us) × (t ≡ typed us)
KeepAll (rejected error) t = (error ≡ stopped) ⊎ (t ≡ rejected error)

finish-Keeps :
    (gmp : Gmp) (op : PrimitiveOp) (es : Exprs) (r : Reduced)
    → reduce_primitive gmp op es ≡ r
    → Keeps (finish op es r) (targets es >>= visit_primitive op)
unfolding finish
finish-Keeps gmp op es (constant v u) h = (scalar_type u, refl, reduce_primitive-type gmp op es h)
finish-Keeps gmp op es ended h = inl refl
finish-Keeps gmp op es unchanged h = same (targets es >>= visit_primitive op)
  where
    same : (m : Typed FuncType) → Keeps (m >>= λ t. typed (primitive op es (to t))) m
    same (typed t) = (t, refl, refl)
    same (rejected e) = inr refl

operation-Keeps :
    (gmp : Gmp) (op : PrimitiveOp) (m : Typed Exprs) (ts : Typed (List FuncType))
    → KeepAll m ts
    → Keeps (m >>= λ es. finish op es (reduce_primitive gmp op es)) (ts >>= visit_primitive op)
operation-Keeps gmp op (rejected e) ts (inl h) = inl h
operation-Keeps gmp op (rejected e) ts (inr h) = inr (ap (λ m. m >>= visit_primitive op) h)
operation-Keeps gmp op (typed es) ts (us, h, k) =
    subst (λ u. Keeps (finish op es (reduce_primitive gmp op es)) (u >>= visit_primitive op))
      (h ∙ sym k) (finish-Keeps gmp op es (reduce_primitive gmp op es) refl)

more-KeepAll :
    (m : Typed Expr) (ms : Typed Exprs) (t : Typed FuncType) (ts : Typed (List FuncType))
    → Keeps m t
    → KeepAll ms ts
    → KeepAll
        (m >>= λ e. ms >>= λ es. typed (more_exprs e es))
        (t >>= λ u. ts >>= λ us. typed (u ∷ us))
more-KeepAll (rejected e) ms t ts (inl h) k = inl h
more-KeepAll (rejected e) ms t ts (inr h) k =
    inr (ap (λ u. u >>= λ u. ts >>= λ us. typed (u ∷ us)) h)
more-KeepAll (typed e) (rejected f) t ts h (inl k) = inl k
more-KeepAll (typed e) (rejected f) t ts (u, h, same) (inr k) = inr (rw (same, k) refl)
more-KeepAll (typed e) (typed es) t ts (u, h, same) (us, k, sames) =
    (u ∷ us, rw (h, k) refl, rw (same, sames) refl)

other-Keeps :
    (e : Expr) (t : TypePtr) → type_of e ≡ t → Keeps (target t >>= λ _. typed e) (target t)
other-Keeps e null h = inr refl
other-Keeps e (to t) h = (t, h, refl)

mutual
  unfolding visit type_expr

  visit_Keeps : (gmp : Gmp) (e : Expr) → Keeps (visit gmp e) (type_expr e)
  visit_Keeps gmp (int_const v null) = (scalar_type int32, refl, refl)
  visit_Keeps gmp (int_const v (to t)) = other-Keeps (int_const v (to t)) (to t) refl
  visit_Keeps gmp (bool_const b) = other-Keeps (bool_const b) _ refl
  visit_Keeps gmp (reference (array_var i) t) = (scalar_type int32, refl, refl)
  visit_Keeps gmp (reference (identifier r e) t) = other-Keeps (reference (identifier r e) t) t refl
  visit_Keeps gmp (reference func_var t) = other-Keeps (reference func_var t) t refl
  visit_Keeps gmp (primitive op es t) =
      operation-Keeps gmp op (visit_exprs gmp es) (type_exprs es) (visit_exprs_KeepAll gmp es)
  visit_Keeps gmp (other_expr t) = other-Keeps (other_expr t) t refl

  visit_exprs_KeepAll : (gmp : Gmp) (es : Exprs) → KeepAll (visit_exprs gmp es) (type_exprs es)
  visit_exprs_KeepAll gmp no_exprs = ([], refl, refl)
  visit_exprs_KeepAll gmp (more_exprs e es) =
      more-KeepAll (visit gmp e) (visit_exprs gmp es) (type_expr e) (type_exprs es)
        (visit_Keeps gmp e) (visit_exprs_KeepAll gmp es)

-- The reduction of constants makes no difference to types: an expression that is visited with it has the type
-- that it has without any reduction, or gives the same error, unless a constant division ends the program.
pub visit-Keeps : (gmp : Gmp) (e : Expr) → Keeps (visit gmp e) (type_expr e)
visit-Keeps gmp e = visit_Keeps gmp e
