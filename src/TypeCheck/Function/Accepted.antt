-- ===== src/TypeCheck/Function/Accepted.antt =====
-- frontend/type_check.cpp: external functions, and their applications.
use arrp.Common.{
  arith, Bool-cases, inl, inr, suc, ==_iff, ◌≡◌, refl, ap, subst, false, List, [], ◌∷◌,
}
use arrp.Common.Int.{pos, negsuc}
use arrp.FuncType.{
  FuncType, TypePtr, TypePtrs, scalar_type, array_type, function_type, meta_type, null, to, nil,
  cons, ArraySizeVec, is_infinite,
}
use arrp.FuncType.Equality.{param_count, AreConcrete}
use arrp.FuncType.Equality.Decides.{subtype_refl}
use arrp.TypeCheck.Typed.{typed, >>=-eq-typed, typed-inj}
use arrp.TypeCheck.Function.{
  check_external_type, check_external_types, external_type, visit_external, concrete, check_call,
  count, visit_func_app,
}

-- The types that the pointers point to.
abbrev pub targets : TypePtrs → List FuncType
targets nil = []
targets (cons null ps) = targets ps
targets (cons (to t) ps) = t ∷ targets ps

-- What can be passed to and from external code: scalars and arrays of a finite size.
abbrev pub IsFinite : ArraySizeVec → Type 0
IsFinite [] = Unit
IsFinite (pos n ∷ size) = IsFinite size
IsFinite (negsuc n ∷ size) = ⊥

abbrev pub IsPassable : FuncType → Type 0
IsPassable (array_type size e) = IsFinite size
IsPassable (function_type ps v) = ⊥
IsPassable t = Unit

abbrev pub ArePassable : List FuncType → Type 0
ArePassable [] = Unit
ArePassable (t ∷ ts) = IsPassable t × ArePassable ts

check_external_type-target :
    (p : TypePtr) {u : Unit {0}} → check_external_type p ≡ typed u → (t : FuncType) × (p ≡ to t)
unfolding check_external_type
check_external_type-target null h = cc
check_external_type-target (to t) h = (t, refl)

check_call-targets :
    (ps : TypePtrs) (result : TypePtr) {u : Unit {0}}
    → AreConcrete ps
    → check_external_types ps result ≡ typed u
    → (check_call ps (targets ps) ≡ typed tt)
      × (count (targets ps) ≡ param_count ps)
      × ((t : FuncType) × (result ≡ to t))
unfolding check_external_types check_call param_count
check_call-targets nil result c h = (refl, refl, check_external_type-target result h)
check_call-targets (cons null ps) result c h =
    let (_, e, _) = >>=-eq-typed (check_external_type null) _ h in
    let (_, same) = check_external_type-target null e in cc same
check_call-targets (cons (to t) ps) result c h =
    let (_, _, rest) = >>=-eq-typed (check_external_type (to t)) _ h in
    let (calls, counts, target) = check_call-targets ps result c.1 rest in
    (rw (subtype_refl t c.0) calls, ap suc counts, target)

function_type-inj :
    {ps qs : TypePtrs} {v w : TypePtr}
    → function_type ps v ≡ function_type qs w
    → (ps ≡ qs) × (v ≡ w)
function_type-inj h = (cc, cc)

external_type-checked :
    (p : TypePtr) (ps : TypePtrs) (v : TypePtr)
    → external_type false p ≡ typed (function_type ps v)
    → check_external_types ps v ≡ typed tt
unfolding external_type
external_type-checked null ps v h = cc
external_type-checked (to (scalar_type p)) ps v h = cc
external_type-checked (to (array_type s e)) ps v h = cc
external_type-checked (to (meta_type q)) ps v h = cc
external_type-checked (to (function_type qs w)) ps v h =
    let (_, ok, same) = >>=-eq-typed (check_external_types qs w) _ h in
    let (ep, ev) = function_type-inj (typed-inj same) in
    subst (λ r. check_external_types ps r ≡ typed tt) ev
      (subst (λ r. check_external_types r w ≡ typed tt) ep ok)

is_infinite-IsFinite : (size : ArraySizeVec) → is_infinite size ≡ false → IsFinite size
unfolding is_infinite
is_infinite-IsFinite [] h = tt
is_infinite-IsFinite (pos n ∷ ss) h = is_infinite-IsFinite ss (ground arith)
is_infinite-IsFinite (negsuc n ∷ ss) h = ground arith

-- The types of an external function that is accepted.
check_external_type-IsPassable :
    (t : FuncType) {u : Unit {0}} → check_external_type (to t) ≡ typed u → IsPassable t
unfolding check_external_type
check_external_type-IsPassable (scalar_type p) h = tt
check_external_type-IsPassable (meta_type c) h = tt
check_external_type-IsPassable (function_type ps v) h = cc
check_external_type-IsPassable (array_type size e) h = elim (Bool-cases (is_infinite size)) [
  | inl i ↦ cc (rw i at h)
  | inr f ↦ is_infinite-IsFinite size f
]

check_external_types-ArePassable :
    (ps : TypePtrs) (t : FuncType) {u : Unit {0}}
    → check_external_types ps (to t) ≡ typed u
    → ArePassable (targets ps) × IsPassable t
unfolding check_external_types
check_external_types-ArePassable nil t h = (tt, check_external_type-IsPassable t h)
check_external_types-ArePassable (cons null ps) t h =
    let (_, _, rest) = >>=-eq-typed (check_external_type null) _ h in
    check_external_types-ArePassable ps t rest
check_external_types-ArePassable (cons (to a) ps) t h =
    let (_, first, rest) = >>=-eq-typed (check_external_type (to a)) _ h in
    let (all, last) = check_external_types-ArePassable ps t rest in
    ((check_external_type-IsPassable a first, all), last)

-- A function that is accepted as an external one has neither functions nor infinite arrays among the types of
-- its parameters and as the type of its result; and it can be applied to arguments of exactly the types of its
-- parameters, if those have no null inside, when the application has the type of its result.
pub visit_external-applicable :
    (type_expr : FuncType) (ps : TypePtrs) (v : TypePtr)
    → visit_external false type_expr ≡ typed (function_type ps v)
    → AreConcrete ps
    → (t : FuncType) × (v ≡ to t)
      × ArePassable (targets ps)
      × IsPassable t
      × (visit_func_app (function_type ps v) (targets ps) ≡ typed t)
unfolding visit_external visit_func_app
visit_external-applicable type_expr ps v h c =
    let (p, _, e) = >>=-eq-typed (concrete type_expr) (external_type false) h in go p e
  where
    go :
        (p : TypePtr)
        → external_type false p ≡ typed (function_type ps v)
        → (t : FuncType) × (v ≡ to t)
          × ArePassable (targets ps)
          × IsPassable t
          × (visit_func_app (function_type ps v) (targets ps) ≡ typed t)
    go p e =
        let checked = external_type-checked p ps v e in
        let (calls, counts, (t, target)) = check_call-targets ps v c checked in
        let (all, last) =
          check_external_types-ArePassable ps t
            (subst (λ r. check_external_types ps r ≡ typed tt) target checked) in
        (
          t,
          target,
          all,
          last,
          rw (target, (==_iff (count (targets ps)) (param_count ps)).1 counts, calls) refl,
        )
