-- ===== src/FuncType/Equality.antt =====
-- common/func_types.hpp and common/func_types.cpp: `operator==` and `operator<=` of the types. `none` is
-- the read through a null pointer in the comparison of two meta types.
pub mod Decides
use arrp.Common.{
  ℕ, suc, ◌==◌, Bool, true, false, ◌&&◌, if◌then◌else◌, [], ◌∷◌, Option, none, some, arith,
}
use arrp.Common.Partial.{◌>>=◌}
use arrp.Primitive.{same_type}
use arrp.Primitive.Order.{le}
use arrp.FuncType.{
  FuncType, TypePtr, TypePtrs, scalar_type, array_type, function_type, meta_type, null, to, nil,
  cons, ArraySizeVec, same_int,
}

-- `==` of two vectors.
unfoldable pub same_size : ArraySizeVec → ArraySizeVec → Bool
same_size [] [] = true
same_size (x ∷ xs) (y ∷ ys) = same_int x y && same_size xs ys
same_size _ _ = false

-- `params.size()`.
unfoldable pub param_count : TypePtrs → ℕ
param_count nil = 0
param_count (cons p ps) = suc (param_count ps)

-- `if (!a) return false;` and the code that follows, `b`.
abbrev pub and_then : Option Bool → Option Bool → Option Bool
and_then a b = do e ← a; if e then b else some false

unfoldable mutual
  unfolding same_size param_count

  pub same : FuncType → FuncType → Option Bool
  same (scalar_type p) (scalar_type q) = some (same_type p q)
  same (array_type s e) (array_type s' e') = some (same_size s s' && same_type e e')
  same (function_type ps v) (function_type qs w) =
      and_then (some (param_count ps == param_count qs))
        (and_then (same_params ps qs) (same_ptr v w))
  same (meta_type c) (meta_type d) = same_target c d
  same _ _ = some false

  -- `function_type::equal`.
  pub same_ptr : TypePtr → TypePtr → Option Bool
  same_ptr null null = some true
  same_ptr (to a) (to b) = same a b
  same_ptr _ _ = some false

  -- `*a == *b`.
  pub same_target : TypePtr → TypePtr → Option Bool
  same_target (to a) (to b) = same a b
  same_target _ _ = none

  -- The loop over the parameters of two functions with as many of them.
  pub same_params : TypePtrs → TypePtrs → Option Bool
  same_params nil qs = some true
  same_params (cons p ps) nil = none
  same_params (cons p ps) (cons q qs) = and_then (same_ptr p q) (same_params ps qs)

-- `a <= b`.
unfoldable pub subtype : FuncType → FuncType → Option Bool
subtype (scalar_type p) (scalar_type q) = some (le p q)
subtype (scalar_type p) _ = some false
subtype (array_type s e) (array_type s' e') = some (same_size s s' && le e e')
subtype (array_type s e) _ = some false
subtype a b = same a b

-- No meta type inside has a null pointer.
abbrev mutual
  pub IsConcrete : FuncType → Type 0
  IsConcrete (scalar_type p) = Unit
  IsConcrete (array_type s e) = Unit
  IsConcrete (function_type ps v) = AreConcrete ps × IsConcretePtr v
  IsConcrete (meta_type c) = IsConcreteTarget c

  pub IsConcretePtr : TypePtr → Type 0
  IsConcretePtr null = Unit
  IsConcretePtr (to t) = IsConcrete t

  pub IsConcreteTarget : TypePtr → Type 0
  IsConcreteTarget null = ⊥
  IsConcreteTarget (to t) = IsConcrete t

  pub AreConcrete : TypePtrs → Type 0
  AreConcrete nil = Unit
  AreConcrete (cons p ps) = IsConcretePtr p × AreConcrete ps
