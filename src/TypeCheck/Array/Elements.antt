-- ===== src/TypeCheck/Array/Elements.antt =====
-- frontend/type_check.cpp: the operands of an enumeration or of a case expression, and their common type.
use arrp.Common.{
  ◌≡◌, refl, sym, ap, subst, ◌∙◌, inl, inr, true, Bool-cases, if◌then◌else◌, List, [], ◌∷◌, ◌++◌,
  length, some,
}
use arrp.Common.Int.{pos}
use mathlib.Core.List.{append_assoc, append-nil}
use arrp.Primitive.{PrimitiveType, undefined}
use arrp.Primitive.Order.{le}
use arrp.Primitive.CommonType.{common_type, common_type_iff, Has}
use arrp.FuncType.{
  FuncType, scalar_type, array_type, function_type, meta_type, ArraySizeVec, type_for, is_data,
}
use arrp.FuncType.ArraySize.{
  common_array_size, common_array_size_sound, Spreads, Spreads-refl, Spreads-trans,
}
use arrp.TypeCheck.Typed.{
  Typed, typed, rejected, or_throw, not_data, size_mismatch, incompatible_types, size_of,
  >>=-eq-typed, or_throw_elim, typed-inj,
}
use arrp.TypeCheck.Array.{join_operand, visit_elements, process_array_enum, visit_cases}

-- The element type of a type of data.
abbrev pub element_of : FuncType → PrimitiveType
element_of (scalar_type p) = p
element_of (array_type s e) = e
element_of _ = undefined

abbrev pub elements_of : List FuncType → List PrimitiveType
elements_of [] = []
elements_of (t ∷ ts) = element_of t ∷ elements_of ts

-- A type of data whose size can be spread over a size, and whose elements can be promoted to a type.
pub record Fits (size : ArraySizeVec) (elem : PrimitiveType) (t : FuncType) : Type 0 where
  pub data_type : is_data t ≡ true
  pub spreads : Spreads (size_of t) size
  pub promoted : le (element_of t) elem ≡ true

abbrev pub AllFit : ArraySizeVec → PrimitiveType → List FuncType → Type 0
AllFit size elem [] = Unit
AllFit size elem (t ∷ ts) = Fits size elem t × AllFit size elem ts

-- What one operand adds to the common size and to the element types.
pub join_operand_sound :
    (common : ArraySizeVec) (elems : List PrimitiveType) (t : FuncType)
    (r : ArraySizeVec × List PrimitiveType)
    → join_operand common elems t ≡ typed r
    → Spreads common r.0 × Spreads (size_of t) r.0 × (r.1 ≡ elems ++ element_of t ∷ [])
unfolding join_operand
join_operand_sound common elems (scalar_type p) r h =
    let same = typed-inj h in
    (
      subst (Spreads common) (ap (λ (q : ArraySizeVec × List PrimitiveType). q.0) same)
          (Spreads-refl common),
      tt,
      ap (λ (q : ArraySizeVec × List PrimitiveType). q.1) (sym same),
    )
join_operand_sound common elems (array_type s e) r h =
    let (c, hc, h') = >>=-eq-typed (or_throw (common_array_size common s) size_mismatch) _ h in
    let same = typed-inj h' in
    let size = ap (λ (q : ArraySizeVec × List PrimitiveType). q.0) same in
    let (old, new) = common_array_size_sound common s (or_throw_elim _ _ hc) in
    (
      subst (Spreads common) size old,
      subst (Spreads s) size new,
      ap (λ (q : ArraySizeVec × List PrimitiveType). q.1) (sym same),
    )
join_operand_sound common elems (function_type ps v) r h = cc
join_operand_sound common elems (meta_type c) r h = cc

-- The sizes and the tests that the loop has made, whatever type the elements are promoted to.
abbrev pub Gathered : ArraySizeVec → List FuncType → Type 0
Gathered size [] = Unit
Gathered size (t ∷ ts) = (is_data t ≡ true) × Spreads (size_of t) size × Gathered size ts

data_only :
    (t : FuncType) (m : Typed (ArraySizeVec × List PrimitiveType))
    {r : ArraySizeVec × List PrimitiveType}
    → (if is_data t then m else rejected not_data) ≡ typed r
    → (is_data t ≡ true) × (m ≡ typed r)
data_only t m h = elim (Bool-cases (is_data t)) [ inl e ↦ (e, rw e at h) | inr e ↦ cc (rw e at h) ]

visit_elements_sound :
    (ts : List FuncType) (common : ArraySizeVec) (elems : List PrimitiveType)
    (r : ArraySizeVec × List PrimitiveType)
    → visit_elements common elems ts ≡ typed r
    → Spreads common r.0 × Gathered r.0 ts × (r.1 ≡ elems ++ elements_of ts)
unfolding visit_elements
visit_elements_sound [] common elems r h =
    let same = typed-inj h in
    (
      subst (Spreads common) (ap (λ (q : ArraySizeVec × List PrimitiveType). q.0) same)
          (Spreads-refl common),
      tt,
      ap (λ (q : ArraySizeVec × List PrimitiveType). q.1) (sym same) ∙ sym (append-nil elems),
    )
visit_elements_sound (t ∷ ts) common elems r h =
    let (s, hs, rest) =
      >>=-eq-typed (if is_data t then join_operand common elems t else rejected not_data) _ h in
    let (is, joined) = data_only t (join_operand common elems t) hs in
    let (old, here, more) = join_operand_sound common elems t s joined in
    let (kept, all, types) = visit_elements_sound ts s.0 s.1 r rest in
    (
      Spreads-trans common s.0 r.0 old kept,
      (is, Spreads-trans (size_of t) s.0 r.0 here kept, all),
      types
          ∙ ap (λ es. es ++ elements_of ts) more
          ∙ append_assoc elems (element_of t ∷ []) (elements_of ts),
    )

pub Gathered-AllFit :
    (ts : List FuncType) (size : ArraySizeVec) (elem : PrimitiveType)
    → Gathered size ts
    → ((e : PrimitiveType) → Has (elements_of ts) e → le e elem ≡ true)
    → AllFit size elem ts
Gathered-AllFit [] size elem g below = tt
Gathered-AllFit (t ∷ ts) size elem g below = (
  record { data_type = g.0; spreads = g.1; promoted = below (element_of t) (inl refl) },
  Gathered-AllFit ts size elem g.2 (λ e h. below e (inr h)),
)

-- The common element type of what the loop has gathered.
gathered_type :
    (ts : List FuncType) (r : ArraySizeVec × List PrimitiveType) (elem : PrimitiveType)
    → visit_elements [] [] ts ≡ typed r
    → or_throw (common_type r.1) incompatible_types ≡ typed elem
    → AllFit r.0 elem ts × Has (elements_of ts) elem
gathered_type ts r elem h k =
    let (_, g, types) = visit_elements_sound ts [] [] r h in
    let common : common_type (elements_of ts) ≡ some elem =
      subst (λ es. common_type es ≡ some elem) types
        (or_throw_elim (common_type r.1) incompatible_types k) in
    let (has, below) = (common_type_iff (elements_of ts) elem).0 common in
    (Gathered-AllFit ts r.0 elem g below, has)

-- An enumeration of operands that has a type is an array of as many elements as it has operands, and each
-- operand fits its elements: the size can be spread, and the element type, which one operand has, is one to
-- which all can be promoted.
pub process_array_enum_sound :
    (operands : List FuncType) {t : FuncType}
    → process_array_enum operands ≡ typed t
    → (common : ArraySizeVec) × (elem : PrimitiveType) × (t
        ≡ array_type (pos (length operands) ∷ common) elem)
      × AllFit common elem operands
      × Has (elements_of operands) elem
unfolding process_array_enum
process_array_enum_sound operands h =
    let (r, hr, h') = >>=-eq-typed (visit_elements [] [] operands) _ h in
    let (elem, he, same) = >>=-eq-typed (or_throw (common_type r.1) incompatible_types) _ h' in
    let (fit, has) = gathered_type operands r elem hr he in
    (r.0, elem, sym (typed-inj same), fit, has)

-- A case expression that has a type has the size and the element type of the array or scalar that it gives,
-- and each case fits them; one case has that element type.
visit_cases_sound :
    (cases : List FuncType) {t : FuncType}
    → visit_cases cases ≡ typed t
    → AllFit (size_of t) (element_of t) cases × Has (elements_of cases) (element_of t)
unfolding visit_cases
visit_cases_sound cases {t} h =
    let (r, hr, h') = >>=-eq-typed (visit_elements [] [] cases) _ h in
    let (elem, he, same) = >>=-eq-typed (or_throw (common_type r.1) incompatible_types) _ h' in
    subst (λ u. AllFit (size_of u) (element_of u) cases × Has (elements_of cases) (element_of u))
      (typed-inj same) (of_type r.0 elem (gathered_type cases r elem hr he))
  where
    of_type :
        (size : ArraySizeVec) (elem : PrimitiveType)
        → AllFit size elem cases × Has (elements_of cases) elem
        → AllFit (size_of (type_for size elem)) (element_of (type_for size elem)) cases
          × Has (elements_of cases) (element_of (type_for size elem))
    of_type [] elem h = unfold type_for in h
    of_type (n ∷ size) elem h = unfold type_for in h
