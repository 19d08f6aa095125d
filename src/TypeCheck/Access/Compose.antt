-- ===== src/TypeCheck/Access/Compose.antt =====
-- frontend/type_check.cpp: applications of arrays in steps, and the sizes of what they give.
use arrp.Common.{
  length, length-append, ◌<◌, ◌^◌, ◌+◌, ◌==◌, ◌≢◌, none, some, ℕ, suc, ◌-◌, ◌≡◌, refl, sym, ap,
  subst, ◌∙◌, false, List, [], ◌∷◌, ◌++◌, arith,
}
use arrp.Common.Int.{ℤ, pos, ltb_ℤ, to_int-pos}
use arrp.Primitive.{PrimitiveType}
use arrp.FuncType.{
  FuncType, scalar_type, array_type, function_type, meta_type, ArraySizeVec, type_for,
}
use arrp.TypeCheck.Typed.{Typed, typed, rejected, ◌>>=◌, >>=-eq-typed, typed-inj}
use arrp.TypeCheck.Access.{
  object_parts, check_arguments, remaining_size, visit_array_app, check_self_ref, size_at,
  size_constant, visit_array_size,
}

check_arguments-append :
    (args more : List FuncType)
    → check_arguments (args ++ more) ≡ (check_arguments args >>= λ _. check_arguments more)
unfolding check_arguments
check_arguments-append [] more = refl
check_arguments-append (scalar_type p ∷ ts) more = ground (arith, check_arguments-append ts more)
check_arguments-append (array_type s e ∷ ts) more = refl
check_arguments-append (function_type ps v ∷ ts) more = refl
check_arguments-append (meta_type c ∷ ts) more = refl

remaining_size_nil : (args : List FuncType) → remaining_size args [] ≡ []
remaining_size_nil [] = refl
remaining_size_nil (t ∷ ts) = refl

remaining_size-append :
    (args more : List FuncType) (size : ArraySizeVec)
    → remaining_size (args ++ more) size ≡ remaining_size more (remaining_size args size)
remaining_size-append [] more size = refl
remaining_size-append (t ∷ ts) more [] = sym (remaining_size_nil more)
remaining_size-append (t ∷ ts) more (n ∷ size) = remaining_size-append ts more size

object_parts-type_for :
    (size : ArraySizeVec) (e : PrimitiveType) → object_parts (type_for size e) ≡ typed (size, e)
unfolding object_parts type_for
object_parts-type_for [] e = refl
object_parts-type_for (n ∷ size) e = refl

-- The part behind the check of a reference of an array to itself.
applied : FuncType → List FuncType → Typed FuncType
applied object args = object_parts object >>= λ o.
    check_arguments args >>= λ _. typed (type_for (remaining_size args o.0) o.1)

applied-append :
    (object : FuncType) (args more : List FuncType)
    → applied object (args ++ more) ≡ (applied object args >>= λ t. applied t more)
unfolding applied
applied-append object args more = go (object_parts object)
  where
    go :
        (o : Typed (ArraySizeVec × PrimitiveType))
        → (o >>= λ o. check_arguments (args ++ more) >>= λ _.
            typed (type_for (remaining_size (args ++ more) o.0) o.1))
          ≡ ((o >>= λ o.
                check_arguments args >>= λ _. typed (type_for (remaining_size args o.0) o.1))
              >>= λ t. object_parts t >>= λ o.
                  check_arguments more >>= λ _. typed (type_for (remaining_size more o.0) o.1))
    go (rejected error) = refl
    go (typed (size, e)) = rw (check_arguments-append args more) (checked (check_arguments args))
      where
        checked :
            (c : Typed (Unit {0}))
            → ((c >>= λ _. check_arguments more) >>= λ _.
                typed (type_for (remaining_size (args ++ more) size) e))
              ≡ ((c >>= λ _. typed (type_for (remaining_size args size) e)) >>= λ t.
                  object_parts t >>= λ o.
                  check_arguments more >>= λ _. typed (type_for (remaining_size more o.0) o.1))
        checked (rejected error) = refl
        checked (typed u) =
            rw
              (
                object_parts-type_for (remaining_size args size) e,
                remaining_size-append args more size,
              )
              refl

visit_array_app-applied :
    (object : FuncType) (args : List FuncType)
    → visit_array_app none object args ≡ applied object args
unfolding visit_array_app check_self_ref applied
visit_array_app-applied object args = refl

self_ref-fewer :
    (object : FuncType) (args more : List FuncType) (arg t : FuncType)
    → visit_array_app (some (length (args ++ arg ∷ more))) object args ≢ typed t
unfolding visit_array_app check_self_ref
self_ref-fewer object args more arg t h =
    let (o, _, h') = >>=-eq-typed (object_parts object) _ h in
    cc (
      rw
        (fewer (length (args ++ arg ∷ more)) (length args) (length more)
          (length-append args (arg ∷ more)))
        at h')
  where
    fewer : (n m k : ℕ) → n ≡ m + suc k → (n == m) ≡ false
    fewer n m k h = ground arith

-- An array that is not referred to from inside itself can be applied to its arguments all at once or in steps:
-- the type is the same, and so is the error. A reference of an array to itself, with fewer arguments than
-- variables, is an error even where the other arguments would follow.
pub visit_array_app-append :
    (object : FuncType) (args more : List FuncType) (arg t : FuncType)
    → (visit_array_app none object (args ++ more)
        ≡ (visit_array_app none object args >>= λ t. visit_array_app none t more))
      × (visit_array_app (some (length (args ++ arg ∷ more))) object args ≢ typed t)
visit_array_app-append object args more arg t = (
  visit_array_app-applied object (args ++ more)
      ∙ applied-append object args more
      ∙ ap (λ m. m >>= λ t. applied t more) (sym (visit_array_app-applied object args))
      ∙ continued (visit_array_app none object args),
  self_ref-fewer object args more arg t,
)
  where
    continued :
        (m : Typed FuncType)
        → (m >>= λ t. applied t more) ≡ (m >>= λ t. visit_array_app none t more)
    continued (rejected error) = refl
    continued (typed u) = sym (visit_array_app-applied u more)

-- What `visit_array_size` gives for a dimension in the range of `int`.
visit_array_size-type_for :
    (size : ArraySizeVec) (e : PrimitiveType) (d : ℕ)
    → suc d < 2 ^ 31
    → visit_array_size (type_for size e) (pos (suc d)) ≡ typed (size_constant (size_at d size))
unfolding visit_array_size type_for
visit_array_size-type_for [] e d h = refl
visit_array_size-type_for (n ∷ size) e d h =
    rw (to_int-pos (suc d) h, bounded d)
      (ap (λ k. typed (size_constant (size_at k (n ∷ size)))) (predecessor d))
  where
    bounded : (k : ℕ) → ltb_ℤ (pos (suc k)) (pos 1) ≡ false
    bounded k = ground arith

    predecessor : (k : ℕ) → suc k - 1 ≡ k
    predecessor k = omega arith

size_at-append :
    (outer inner : ArraySizeVec) (n : ℤ) → size_at (length outer) (outer ++ n ∷ inner) ≡ n
size_at-append [] inner n = refl
size_at-append (m ∷ outer) inner n = size_at-append outer inner n

remaining_size-outer :
    (args : List FuncType) (outer inner : ArraySizeVec)
    → length args ≡ length outer
    → remaining_size args (outer ++ inner) ≡ inner
remaining_size-outer [] [] inner h = refl
remaining_size-outer [] (m ∷ outer) inner h = absurd (omega (arith, h))
remaining_size-outer (t ∷ ts) [] inner h = absurd (omega (arith, h))
remaining_size-outer (t ∷ ts) (m ∷ outer) inner h =
    remaining_size-outer ts outer inner (omega (arith, h))

applied-remaining :
    (size : ArraySizeVec) (e : PrimitiveType) (args : List FuncType) {t : FuncType}
    → applied (type_for size e) args ≡ typed t
    → type_for (remaining_size args size) e ≡ t
unfolding applied
applied-remaining size e args h =
    let (o, eo, h') = >>=-eq-typed (object_parts (type_for size e)) _ h in
    let (_, _, same) = >>=-eq-typed (check_arguments args) _ h' in
    let parts : o ≡ (size, e) = typed-inj (sym eo ∙ object_parts-type_for size e) in
    ap (λ (q : ArraySizeVec × PrimitiveType). type_for (remaining_size args q.0) q.1) (sym parts)
    ∙ typed-inj same

-- Dimensions are counted from 1 on: if `n` stands behind the outer sizes of an array, and these are fewer than
-- 2^31 - 1, then n is the size in the dimension behind them, with infinity for a negative n; and n is the
-- size in dimension 1 of what the array gives when it is applied to as many arguments as there are outer sizes.
pub visit_array_size-app :
    (outer inner : ArraySizeVec) (n : ℤ) (e : PrimitiveType) (args : List FuncType) {t : FuncType}
    → suc (length outer) < 2 ^ 31
    → length args ≡ length outer
    → visit_array_app none (type_for (outer ++ n ∷ inner) e) args ≡ typed t
    → (visit_array_size (type_for (outer ++ n ∷ inner) e) (pos (suc (length outer)))
        ≡ typed (size_constant n))
      × (visit_array_size t (pos 1) ≡ typed (size_constant n))
visit_array_size-app outer inner n e args {t} small as_many h =
    let left : type_for (n ∷ inner) e ≡ t =
      ap (λ s. type_for s e) (sym (remaining_size-outer args outer (n ∷ inner) as_many))
      ∙ applied-remaining (outer ++ n ∷ inner) e args
          (sym (visit_array_app-applied (type_for (outer ++ n ∷ inner) e) args) ∙ h) in
    (
      visit_array_size-type_for (outer ++ n ∷ inner) e (length outer) small
          ∙ ap (λ k. typed (size_constant k)) (size_at-append outer inner n),
      subst (λ u. visit_array_size u (pos 1) ≡ typed (size_constant n)) left
          (visit_array_size-type_for (n ∷ inner) e 0 (omega arith)),
    )
