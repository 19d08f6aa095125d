-- ===== src/TypeCheck/Array/Count.antt =====
-- frontend/type_check.cpp: the number of the elements of a concatenation.
use arrp.Common.{
  ℕ, ◌+◌, ◌≡◌, refl, sym, ap, subst, ◌∙◌, ◌⊎◌, inl, inr, true, false, Bool-cases, if◌then◌else◌,
  List, [], ◌∷◌, arith,
}
use arrp.Common.Int.{ℤ, pos, negsuc, ltb_ℤ, ◌+ℤ◌}
use arrp.Primitive.{PrimitiveType}
use arrp.FuncType.{
  FuncType, scalar_type, array_type, function_type, meta_type, ArraySizeVec, is_data, same_int,
}
use arrp.TypeCheck.Typed.{typed, rejected, not_data, behind_infinite, >>=-eq-typed, typed-inj}
use arrp.TypeCheck.Array.{join_operand, split_operand, add_elem_count, visit_concat}

-- The number of elements that an operand gives: those of its first dimension, or itself.
abbrev pub count_of : FuncType → ℤ
count_of (array_type (n ∷ rest) e) = n
count_of _ = pos 1

-- The type of each of them.
abbrev pub inner_of : FuncType → FuncType
inner_of (array_type (n ∷ rest) e) = array_type rest e
inner_of t = t

abbrev pub inners_of : List FuncType → List FuncType
inners_of [] = []
inners_of (t ∷ ts) = inner_of t ∷ inners_of ts

-- Elements before a number of them, or before infinitely many.
abbrev pub before : ℕ → ℤ → ℤ
before n (pos m) = pos (n + m)
before n (negsuc m) = negsuc 0

-- The number of all elements: that of an operand, and behind it that of the others. Only the last operand
-- can be infinite, and then the whole is.
abbrev pub HasLength : List FuncType → ℤ → Type 0
HasLength [] total = total ≡ pos 0
HasLength (t ∷ ts) total =
    ((ltb_ℤ (count_of t) (pos 0) ≡ true) × (ts ≡ []) × (total ≡ negsuc 0))
    ⊎ ((n : ℕ) × (m : ℤ) × (count_of t ≡ pos n) × HasLength ts m × (total ≡ before n m))

pub part_of :
    (total : ℤ) (t : FuncType) (part : ℤ × FuncType)
    → (if same_int total (negsuc 0)
        then rejected behind_infinite
        else if is_data t
        then split_operand t
        else rejected not_data)
      ≡ typed part
    → (same_int total (negsuc 0) ≡ false) × (is_data t ≡ true) × (split_operand t ≡ typed part)
part_of total t part h = elim (Bool-cases (same_int total (negsuc 0))) [
  | inl e ↦ cc (rw e at h)
  | inr e ↦ elim (Bool-cases (is_data t)) [
    | inl d ↦ (e, d, rw (e, d) at h)
    | inr d ↦ cc (rw (e, d) at h)
  ]
]

pub split_operand_lem :
    (t : FuncType) (part : ℤ × FuncType)
    → split_operand t ≡ typed part
    → is_data t ≡ true
    → (part.0 ≡ count_of t) × (part.1 ≡ inner_of t) × (is_data (inner_of t) ≡ true)
unfolding split_operand is_data
split_operand_lem (array_type [] e) part h d = cc
split_operand_lem (array_type (n ∷ rest) e) part h d =
    let same = typed-inj h in
    (ap (λ (p : ℤ × FuncType). p.0) (sym same), ap (λ (p : ℤ × FuncType). p.1) (sym same), d)
split_operand_lem (scalar_type p) part h d =
    let same = typed-inj h in
    (ap (λ (p : ℤ × FuncType). p.0) (sym same), ap (λ (p : ℤ × FuncType). p.1) (sym same), d)
split_operand_lem (function_type ps v) part h d = cc
split_operand_lem (meta_type c) part h d = cc

-- Behind an infinite operand there is none.
visit_concat-infinite :
    (ts : List FuncType) (common : ArraySizeVec) (elems : List PrimitiveType)
    (r : ℤ × ArraySizeVec × List PrimitiveType)
    → visit_concat (negsuc 0) common elems ts ≡ typed r
    → (ts ≡ []) × (r.0 ≡ negsuc 0)
unfolding visit_concat
visit_concat-infinite [] common elems r h =
    (refl, ap (λ (q : ℤ × ArraySizeVec × List PrimitiveType). q.0) (sym (typed-inj h)))
visit_concat-infinite (t ∷ ts) common elems r h = cc

pub visit_concat_length :
    (ts : List FuncType) (k : ℕ) (common : ArraySizeVec) (elems : List PrimitiveType)
    (r : ℤ × ArraySizeVec × List PrimitiveType)
    → visit_concat (pos k) common elems ts ≡ typed r
    → (m : ℤ) × HasLength ts m × (r.0 ≡ before k m)
unfolding visit_concat
visit_concat_length [] k common elems r h = (
  pos 0,
  refl,
  ap (λ (q : ℤ × ArraySizeVec × List PrimitiveType). q.0) (sym (typed-inj h))
      ∙ ap pos (omega arith),
)
visit_concat_length (t ∷ ts) k common elems r h =
    let (part, hp, h') =
      >>=-eq-typed
        (if same_int (pos k) (negsuc 0)
          then rejected behind_infinite
          else if is_data t
          then split_operand t
          else rejected not_data)
        _ h in
    let (_, d, hs) = part_of (pos k) t part hp in
    let (count, _, _) = split_operand_lem t part hs d in
    let (s, _, rest) = >>=-eq-typed (join_operand common elems part.1) _ h' in
    go (count_of t) refl s
      (subst (λ c. visit_concat (add_elem_count (pos k) c) s.0 s.1 ts ≡ typed r) count rest)
      (λ n s. visit_concat_length ts (k + n) s.0 s.1 r)
  where
    sum : (n : ℕ) → pos k +ℤ pos n ≡ pos (k + n)
    sum n = unfold ◌+ℤ◌ in ground arith

    assoc : (n : ℕ) (m : ℤ) → before (k + n) m ≡ before k (before n m)
    assoc n (pos m) = ap pos (omega arith)
    assoc n (negsuc m) = refl

    go :
        (c : ℤ)
        → count_of t ≡ c
        → (s : ArraySizeVec × List PrimitiveType)
        → visit_concat (add_elem_count (pos k) c) s.0 s.1 ts ≡ typed r
        → ((n : ℕ) (s : ArraySizeVec × List PrimitiveType)
            → visit_concat (pos (k + n)) s.0 s.1 ts ≡ typed r
            → (m : ℤ) × HasLength ts m × (r.0 ≡ before (k + n) m))
        → (m : ℤ) × HasLength (t ∷ ts) m × (r.0 ≡ before k m)
    go (negsuc n) e s rest ih =
        let (last, total) = visit_concat-infinite ts s.0 s.1 r (negative n rest) in
        (negsuc 0, inl (ap (λ c. ltb_ℤ c (pos 0)) e ∙ below n, last, refl), total)
      where
        below : (n : ℕ) → ltb_ℤ (negsuc n) (pos 0) ≡ true
        below n = ground arith

        negative :
            (n : ℕ)
            → visit_concat (add_elem_count (pos k) (negsuc n)) s.0 s.1 ts ≡ typed r
            → visit_concat (negsuc 0) s.0 s.1 ts ≡ typed r
        negative n h = rw (below n) at h
    go (pos n) e s rest ih =
        let (m, has, total) = ih n s (positive n rest) in
        (before n m, inr (n, m, e, has, refl), total ∙ assoc n m)
      where
        above : (n : ℕ) → ltb_ℤ (pos n) (pos 0) ≡ false
        above n = ground arith

        positive :
            (n : ℕ)
            → visit_concat (add_elem_count (pos k) (pos n)) s.0 s.1 ts ≡ typed r
            → visit_concat (pos (k + n)) s.0 s.1 ts ≡ typed r
        positive n h = rw (above n, sum n) at h
