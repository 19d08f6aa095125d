-- ===== src/Primitive/CommonType.antt =====
-- common/primitives.cpp: `common_type`, the type to which the operands of a primitive are promoted.
use arrp.Common.{
  ◌≡◌, ◌⊎◌, ◌↔◌, inl, inr, refl, sym, ◌∙◌, Bool, true, false, if◌then◌else◌, List, [], ◌∷◌, Option,
  none, some, Bool-cases, arith, Option-cases,
}
use arrp.Primitive.{PrimitiveType}
use arrp.Primitive.Order.{lt, le, le_cases, lt-le, le_antisym}

-- `std::max_element` keeps the first element that no later one exceeds: `top` is the largest so far.
unfoldable pub max_element : PrimitiveType → List PrimitiveType → PrimitiveType
max_element top [] = top
max_element top (t ∷ ts) = max_element (if lt top t then t else top) ts

-- The second loop: is each of the types below `top`?
abbrev pub all_le : List PrimitiveType → PrimitiveType → Bool
all_le [] top = true
all_le (t ∷ ts) top = if le t top then all_le ts top else false

-- `none` is the exception `no_type`.
unfoldable pub common_type : List PrimitiveType → Option PrimitiveType
unfolding max_element
common_type [] = none
common_type (t ∷ ts) = let top = max_element t ts in if all_le (t ∷ ts) top then some top else none

-- The type is one of the list.
abbrev pub Has : List PrimitiveType → PrimitiveType → Type 0
Has [] t = ⊥
Has (x ∷ xs) t = (x ≡ t) ⊎ Has xs t

-- Each type of the list is below `m`.
abbrev pub Below : List PrimitiveType → PrimitiveType → Type 0
Below ts m = (t : PrimitiveType) → Has ts t → le t m ≡ true

all_le-Below : (ts : List PrimitiveType) (m : PrimitiveType) → all_le ts m ≡ true → Below ts m
all_le-Below [] m h t e = absurd e
all_le-Below (x ∷ xs) m h t (inl e) = ground arith
all_le-Below (x ∷ xs) m h t (inr r) = all_le-Below xs m (ground arith) t r

Below-all_le : (ts : List PrimitiveType) (m : PrimitiveType) → Below ts m → all_le ts m ≡ true
Below-all_le [] m h = refl
Below-all_le (x ∷ xs) m h = ground (arith, h x (inl refl), Below-all_le xs m (λ t r. h t (inr r)))

-- The result of the first loop is one of the types.
max_element-Has :
    (top : PrimitiveType) (ts : List PrimitiveType) → Has (top ∷ ts) (max_element top ts)
unfolding max_element
max_element-Has top [] = inl refl
max_element-Has top (t ∷ ts) = elim (Bool-cases (lt top t)) [
  | inl e ↦ rw e (inr (max_element-Has t ts))
  | inr e ↦ rw e (elim (max_element-Has top ts) [ inl h ↦ inl h | inr r ↦ inr (inr r) ])
]

-- An upper bound that is one of the types is not lost by the first loop.
max_element-top :
    (m top : PrimitiveType) (ts : List PrimitiveType)
    → Below (top ∷ ts) m
    → Has (top ∷ ts) m
    → max_element top ts ≡ m
unfolding max_element
max_element-top m top [] below (inl e) = e
max_element-top m top [] below (inr r) = absurd r
max_element-top m top (t ∷ ts) below h = elim (Bool-cases (lt top t)) [
  | inl e ↦ rw e (max_element-top m t ts (λ u r. below u (inr r)) (greater e h))
  | inr e ↦ rw e (max_element-top m top ts (skip below) (lesser e h))
]
  where
    skip : Below (top ∷ t ∷ ts) m → Below (top ∷ ts) m
    skip b u (inl q) = b u (inl q)
    skip b u (inr r) = b u (inr (inr r))

    greater : lt top t ≡ true → Has (top ∷ t ∷ ts) m → Has (t ∷ ts) m
    greater e (inl q) = inl (le_antisym t m (below t (inr (inl refl))) (rw (← q) (lt-le top t e)))
    greater e (inr r) = r

    lesser : lt top t ≡ false → Has (top ∷ t ∷ ts) m → Has (top ∷ ts) m
    lesser e (inl q) = inl q
    lesser e (inr (inl q)) = elim (le_cases top t (rw q (below top (inl refl)))) [
      | inl same ↦ inl (same ∙ q)
      | inr less ↦ cc
    ]
    lesser e (inr (inr r)) = inr r

-- `common_type` gives the type of the list that is above each of them, and throws exactly when the
-- list has no such type; of several it cannot choose another, whatever the order of the list.
pub common_type_iff :
    (ts : List PrimitiveType) (m : PrimitiveType)
    → (common_type ts ≡ some m) ↔ (Has ts m × Below ts m)
unfolding common_type
common_type_iff [] m = (λ e. cc, λ h. absurd h.0)
common_type_iff (t ∷ ts) m = (forward, backward)
  where
    forward : common_type (t ∷ ts) ≡ some m → Has (t ∷ ts) m × Below (t ∷ ts) m
    forward e =
        let top = max_element t ts in
        elim (Bool-cases (all_le (t ∷ ts) top)) [
          | inl ok ↦
              let same : top ≡ m = ground arith in
              (rw (← same) (max_element-Has t ts), rw (← same) (all_le-Below (t ∷ ts) top ok))
          | inr no' ↦ ground arith
        ]

    backward : Has (t ∷ ts) m × Below (t ∷ ts) m → common_type (t ∷ ts) ≡ some m
    backward h = rw (max_element-top m t ts h.1 h.0, Below-all_le (t ∷ ts) m h.1)

-- The order and the repetition of the operands do not matter: two lists with the same types have the
-- same common type, or neither has one.
pub common_type_same :
    (ts us : List PrimitiveType)
    → ((t : PrimitiveType) → Has ts t ↔ Has us t)
    → common_type ts ≡ common_type us
common_type_same ts us h = elim (Option-cases (common_type ts)) [
  | inl e ↦ elim (Option-cases (common_type us)) [
    | inl f ↦ e ∙ sym f
    | inr (m, f) ↦ let g = common_from us ts (λ t. ((h t).1, (h t).0)) f in cc
  ]
  | inr (m, e) ↦ let g = common_from ts us h e in e ∙ sym g
]
  where
    common_from :
        (vs ws : List PrimitiveType)
        → ((t : PrimitiveType) → Has vs t ↔ Has ws t)
        → {m : PrimitiveType} → common_type vs ≡ some m
        → common_type ws ≡ some m
    common_from vs ws k {m} e =
        let p = (common_type_iff vs m).0 e in
        (common_type_iff ws m).1 ((k m).0 p.0, λ t r. p.1 t ((k t).1 r))
