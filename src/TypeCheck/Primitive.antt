-- ===== src/TypeCheck/Primitive.antt =====
-- frontend/type_check.cpp: `visit_primitive`, from the types of the operands on. (The operands are
-- visited, and the operation is reduced, before that.)
use arrp.Common.{◌≡◌, refl, List, [], ◌∷◌, ◌++◌, arith, subst}
use arrp.Primitive.{PrimitiveType}
use arrp.Primitive.Op.{PrimitiveOp}
use arrp.Primitive.ResultType.{result_type}
use arrp.Primitive.ResultType.Symmetry.{result_type_swap}
use arrp.FuncType.{
  FuncType, scalar_type, array_type, function_type, meta_type, ArraySizeVec, type_for,
}
use arrp.FuncType.ArraySize.{
  common_array_size, common_array_size_sound, common_array_size_comm, common_array_size_nil,
  Spreads, Spreads-refl, Spreads-trans,
}
use arrp.TypeCheck.Typed.{
  Typed, typed, rejected, ◌>>=◌, or_throw, function_as_operand, size_mismatch, unexpected_operand,
  invalid_operands, size_of, IsValue, AllSpread, >>=-eq-typed, or_throw_elim,
}

-- The loop over the operands: the common size so far, and the element types in order.
unfoldable pub visit_operands :
    ArraySizeVec → List PrimitiveType → List FuncType → Typed (ArraySizeVec × List PrimitiveType)
visit_operands common elems [] = typed (common, elems)
visit_operands common elems (function_type ps v ∷ ts) = rejected function_as_operand
visit_operands common elems (array_type size e ∷ ts) = do
  common' ← or_throw (common_array_size common size) size_mismatch
  visit_operands common' (elems ++ e ∷ []) ts
visit_operands common elems (scalar_type p ∷ ts) = visit_operands common (elems ++ p ∷ []) ts
visit_operands common elems (meta_type c ∷ ts) = rejected unexpected_operand

unfoldable pub visit_primitive : PrimitiveOp → List FuncType → Typed FuncType
visit_primitive kind operands = do
  (common, elems) ← visit_operands [] [] operands
  elem ← or_throw (result_type kind elems) invalid_operands
  typed (type_for common elem)

visit_operands_sound :
    (ts : List FuncType) (acc : ArraySizeVec) (elems : List PrimitiveType)
    (r : ArraySizeVec × List PrimitiveType)
    → visit_operands acc elems ts ≡ typed r
    → Spreads acc r.0 × AllSpread ts r.0
unfolding visit_operands
visit_operands_sound [] acc elems r h =
    let same : acc ≡ r.0 = cc in (subst (Spreads acc) same (Spreads-refl acc), tt)
visit_operands_sound (scalar_type p ∷ ts) acc elems r h =
    let (all, rest) = visit_operands_sound ts acc (elems ++ p ∷ []) r h in (all, (tt, rest))
visit_operands_sound (array_type size e ∷ ts) acc elems r h =
    let (common, hc, h') =
      >>=-eq-typed (or_throw (common_array_size acc size) size_mismatch)
        (λ c. visit_operands c (elems ++ e ∷ []) ts) h in
    let (here, rest) = visit_operands_sound ts common (elems ++ e ∷ []) r h' in
    let (old, new) = common_array_size_sound acc size (or_throw_elim _ _ hc) in
    (Spreads-trans acc common r.0 old here, (Spreads-trans size common r.0 new here, rest))
visit_operands_sound (function_type ps v ∷ ts) acc elems r h = cc
visit_operands_sound (meta_type c ∷ ts) acc elems r h = cc

size_of-type_for : (s : ArraySizeVec) (p : PrimitiveType) → size_of (type_for s p) ≡ s
unfolding type_for
size_of-type_for [] p = refl
size_of-type_for (x ∷ xs) p = refl

-- Where an application of an operation has a type, the size of each operand can be spread over the size
-- of that type.
visit_primitive_sizes :
    (kind : PrimitiveOp) (operands : List FuncType) {t : FuncType}
    → visit_primitive kind operands ≡ typed t
    → AllSpread operands (size_of t)
unfolding visit_primitive
visit_primitive_sizes kind operands {t} h =
    let (r, hr, h') = >>=-eq-typed (visit_operands [] [] operands) _ h in
    let (elem, he, e) = >>=-eq-typed (or_throw (result_type kind r.1) invalid_operands) _ h' in
    let same : type_for r.0 elem ≡ t = cc in
    subst (λ u. AllSpread operands (size_of u)) same
      (rw size_of-type_for (visit_operands_sound operands [] [] r hr).1)

-- Two operands that are scalars or arrays can be exchanged: the type is the same, and so is the error.
visit_primitive_swap :
    (kind : PrimitiveOp) (a b : FuncType)
    → IsValue a
    → IsValue b
    → visit_primitive kind (a ∷ b ∷ []) ≡ visit_primitive kind (b ∷ a ∷ [])
unfolding visit_primitive visit_operands
visit_primitive_swap kind (scalar_type p) (scalar_type q) h k = rw (result_type_swap kind p q)
visit_primitive_swap kind (scalar_type p) (array_type s e) h k =
    ground (arith, result_type_swap kind p e)
visit_primitive_swap kind (array_type s e) (scalar_type p) h k =
    ground (arith, result_type_swap kind p e)
visit_primitive_swap kind (array_type s e) (array_type t f) h k = ground (
  arith,
  common_array_size_nil s,
  common_array_size_nil t,
  common_array_size_comm s t,
  result_type_swap kind e f,
)
visit_primitive_swap kind (function_type ps v) b h k = absurd h
visit_primitive_swap kind (meta_type c) b h k = absurd h
visit_primitive_swap kind a (function_type ps v) h k = absurd k
visit_primitive_swap kind a (meta_type c) h k = absurd k
