-- ===== src/FuncType/Construct.antt =====
-- common/func_types.cpp: the constructor of `array_type` that takes the type of an element, which can be
-- an array again.
use arrp.Common.{◌≡◌, refl, ap, sym, subst, ◌++◌}
use mathlib.Core.List.{append_assoc}
use arrp.FuncType.{
  FuncType, TypePtr, scalar_type, array_type, function_type, meta_type, null, to, ArraySizeVec,
}

-- The constructor throws for a function; for a meta type, or none, it leaves `element` unset.
pub data Construction : Type 0 where
  failed : Construction
  unset : ArraySizeVec → Construction
  made : FuncType → Construction

unfoldable pub make_array_type : ArraySizeVec → TypePtr → Construction
make_array_type size (to (function_type ps v)) = failed
make_array_type size (to (array_type nested element)) = made (array_type (size ++ nested) element)
make_array_type size (to (scalar_type p)) = made (array_type size p)
make_array_type size (to (meta_type c)) = unset size
make_array_type size null = unset size

made_inj : {t u : FuncType} → made t ≡ made u → t ≡ u
made_inj h = cc

-- An array of arrays is the array of all dimensions, the outer ones first.
make_array_type_nested :
    (outer inner : ArraySizeVec) (t : TypePtr) (u : FuncType)
    → make_array_type inner t ≡ made u
    → make_array_type outer (to u) ≡ make_array_type (outer ++ inner) t
unfolding make_array_type
make_array_type_nested outer inner null u h = cc
make_array_type_nested outer inner (to (scalar_type p)) u h =
    subst (λ v. make_array_type outer (to v) ≡ made (array_type (outer ++ inner) p)) (made_inj h)
      refl
make_array_type_nested outer inner (to (array_type nested e)) u h =
    subst (λ v. make_array_type outer (to v) ≡ made (array_type ((outer ++ inner) ++ nested) e))
      (made_inj h) (ap (λ s. made (array_type s e)) (sym (append_assoc outer inner nested)))
make_array_type_nested outer inner (to (function_type ps v)) u h = cc
make_array_type_nested outer inner (to (meta_type c)) u h = cc
