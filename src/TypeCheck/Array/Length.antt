-- ===== src/TypeCheck/Array/Length.antt =====
-- frontend/type_check.cpp: the operands of a concatenation, and its type.
use arrp.Common.{
  ℕ, ◌≡◌, sym, ap, subst, ◌∙◌, inl, inr, Bool-cases, if◌then◌else◌, List, [], ◌∷◌, ◌++◌, some,
  arith,
}
use arrp.Common.Int.{ℤ, pos, negsuc}
use mathlib.Core.List.{append_assoc, append-nil}
use arrp.Primitive.{PrimitiveType}
use arrp.Primitive.CommonType.{common_type, common_type_iff, Has}
use arrp.FuncType.{FuncType, array_type, ArraySizeVec, is_data, same_int}
use arrp.FuncType.ArraySize.{Spreads, Spreads-refl, Spreads-trans}
use arrp.TypeCheck.Typed.{
  typed, rejected, or_throw, not_data, behind_infinite, incompatible_types, assertion, size_of,
  >>=-eq-typed, or_throw_elim, typed-inj,
}
use arrp.TypeCheck.Array.{
  join_operand, split_operand, add_elem_count, visit_concat, process_array_concat,
}
use arrp.TypeCheck.Array.Elements.{
  element_of, elements_of, AllFit, Gathered, Gathered-AllFit, join_operand_sound,
}
use arrp.TypeCheck.Array.Count.{
  inner_of, inners_of, before, HasLength, part_of, split_operand_lem, visit_concat_length,
}

visit_concat_sound :
    (ts : List FuncType) (total : ℤ) (common : ArraySizeVec) (elems : List PrimitiveType)
    (r : ℤ × ArraySizeVec × List PrimitiveType)
    → visit_concat total common elems ts ≡ typed r
    → Spreads common r.1 × Gathered r.1 (inners_of ts) × (r.2 ≡ elems ++ elements_of (inners_of ts))
unfolding visit_concat
visit_concat_sound [] total common elems r h =
    let same = typed-inj h in
    (
      subst (Spreads common) (ap (λ (q : ℤ × ArraySizeVec × List PrimitiveType). q.1) same)
          (Spreads-refl common),
      tt,
      ap (λ (q : ℤ × ArraySizeVec × List PrimitiveType). q.2) (sym same) ∙ sym (append-nil elems),
    )
visit_concat_sound (t ∷ ts) total common elems r h =
    let (part, hp, h') =
      >>=-eq-typed
        (if same_int total (negsuc 0)
          then rejected behind_infinite
          else if is_data t
          then split_operand t
          else rejected not_data)
        _ h in
    let (_, d, hs) = part_of total t part hp in
    let (_, inner, is) = split_operand_lem t part hs d in
    let (s, joined, rest) = >>=-eq-typed (join_operand common elems part.1) _ h' in
    let (old, here, more) =
      join_operand_sound common elems (inner_of t) s
        (subst (λ u. join_operand common elems u ≡ typed s) inner joined) in
    let (kept, all, types) = visit_concat_sound ts (add_elem_count total part.0) s.0 s.1 r rest in
    (
      Spreads-trans common s.0 r.1 old kept,
      (is, Spreads-trans (size_of (inner_of t)) s.0 r.1 here kept, all),
      types
          ∙ ap (λ es. es ++ elements_of (inners_of ts)) more
          ∙ append_assoc elems (element_of (inner_of t) ∷ []) (elements_of (inners_of ts)),
    )

-- A concatenation of operands that has a type is an array of all the elements that they give, infinite only
-- where the last operand is, and each element fits: the size can be spread, and the element type, which one
-- operand has, is one to which all can be promoted.
pub process_array_concat_sound :
    (operands : List FuncType) {t : FuncType}
    → process_array_concat operands ≡ typed t
    → (total : ℤ) × (common : ArraySizeVec) × (elem : PrimitiveType) × (t
        ≡ array_type (total ∷ common) elem)
      × HasLength operands total
      × AllFit common elem (inners_of operands)
      × Has (elements_of (inners_of operands)) elem
unfolding process_array_concat
process_array_concat_sound operands {t} h =
    let (r, hr, h') = >>=-eq-typed (visit_concat (pos 0) [] [] operands) _ h in
    let (elem, he, h'') = >>=-eq-typed (or_throw (common_type r.2) incompatible_types) _ h' in
    let (_, g, types) = visit_concat_sound operands (pos 0) [] [] r hr in
    let (m, has, total) = visit_concat_length operands 0 [] [] r hr in
    let common : common_type (elements_of (inners_of operands)) ≡ some elem =
      subst (λ es. common_type es ≡ some elem) types
        (or_throw_elim (common_type r.2) incompatible_types he) in
    let (one, below) = (common_type_iff (elements_of (inners_of operands)) elem).0 common in
    (
      r.0,
      r.1,
      elem,
      result r elem h'',
      subst (HasLength operands) (same operands m has ∙ sym total) has,
      Gathered-AllFit (inners_of operands) r.1 elem g below,
      one,
    )
  where
    result :
        (r : ℤ × ArraySizeVec × List PrimitiveType) (elem : PrimitiveType)
        → (if same_int r.0 (pos 0) then rejected assertion else typed (array_type (r.0 ∷ r.1) elem))
          ≡ typed t
        → t ≡ array_type (r.0 ∷ r.1) elem
    result r elem k = elim (Bool-cases (same_int r.0 (pos 0))) [
      | inl e ↦ cc (rw e at k)
      | inr e ↦ sym (typed-inj (rw e at k))
    ]

    same : (ts : List FuncType) (m : ℤ) → HasLength ts m → m ≡ before 0 m
    same ts (pos m) has = ap pos (omega arith)
    same ts (negsuc m) has = only ts m has
      where
        only : (ts : List FuncType) (m : ℕ) → HasLength ts (negsuc m) → negsuc m ≡ negsuc 0
        only [] m h = cc
        only (t ∷ ts) m (inl h) = h.2
        only (t ∷ ts) m (inr (n, pos k, e, _, q)) = cc
        only (t ∷ ts) m (inr (n, negsuc k, e, _, q)) = q
