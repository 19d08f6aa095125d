-- ===== src/ReferenceAnalysis/Chain.antt =====
-- frontend/reference_analysis.cpp: the stack of identifiers under visit, where each reaches the ones above it.
use arrp.Common.{
  ℕ, suc, true, false, ◌≡◌, refl, sym, ap, subst, ◌⊎◌, inl, inr, ◌==◌, ==_iff, Bool-cases, List, [],
  ◌∷◌, ◌++◌, ◌<◌, ◌≤◌, if◌then◌else◌, length, take, arith,
}
use arrp.ReferenceAnalysis.{Expr, contains, from_found}
use arrp.ReferenceAnalysis.Relation.{
  mentions, ◌∈◌, Reaches, step, Reaches-trans, contains-cons, contains-head, contains-tail,
}

pub not_in_nil {ℓ} : {A : Type ℓ} → false ≡ true → A
not_in_nil h = cc

pub contains-append : (i : ℕ) (xs ys : List ℕ) → i ∈ xs ++ ys → (i ∈ xs) ⊎ (i ∈ ys)
contains-append i [] ys h = inr h
contains-append i (x ∷ xs) ys h = elim (contains-cons i x (xs ++ ys) h) [
  | inl e ↦ inl (subst (λ k. k ∈ x ∷ xs) e (contains-head x xs))
  | inr m ↦ elim (contains-append i xs ys m) [
    | inl l ↦ inl (contains-tail i x xs l)
    | inr r ↦ inr r
  ]
]

pub contains-append_left : (i : ℕ) (xs ys : List ℕ) → i ∈ xs → i ∈ xs ++ ys
contains-append_left i [] ys h = not_in_nil h
contains-append_left i (x ∷ xs) ys h = elim (contains-cons i x xs h) [
  | inl e ↦ subst (λ k. k ∈ x ∷ xs ++ ys) e (contains-head x (xs ++ ys))
  | inr m ↦ contains-tail i x (xs ++ ys) (contains-append_left i xs ys m)
]

pub contains-append_right : (i : ℕ) (xs ys : List ℕ) → i ∈ ys → i ∈ xs ++ ys
contains-append_right i [] ys h = h
contains-append_right i (x ∷ xs) ys h =
    contains-tail i x (xs ++ ys) (contains-append_right i xs ys h)

pub take-length_append : (xs ys : List ℕ) → take (length xs) (xs ++ ys) ≡ xs
take-length_append [] [] = refl
take-length_append [] (y ∷ ys) = refl
take-length_append (x ∷ xs) ys = ap (λ zs. x ∷ zs) (take-length_append xs ys)

-- Each identifier of the stack reaches those above it, and `target`.
pub data Chained (expr : ℕ → Expr) : List ℕ → ℕ → Type 0 where
  bottom : {target : ℕ} → Chained expr [] target
  above :
      {x target : ℕ} {xs : List ℕ}
      → Reaches expr x target
      → ((y : ℕ) → y ∈ xs → Reaches expr x y)
      → Chained expr xs target
      → Chained expr (x ∷ xs) target

module _ {expr : ℕ → Expr} where
  pub Chained-push :
      {v : List ℕ} {i j : ℕ}
      → Chained expr v i
      → j ∈ mentions (expr i)
      → Chained expr (v ++ (i ∷ [])) j
  Chained-push bottom m = above (step m) (λ y h. not_in_nil h) bottom
  Chained-push {i} (above {x} {xs} r all rest) m =
      above (Reaches-trans r (step m)) reached (Chained-push rest m)
    where
      reached : (y : ℕ) → y ∈ xs ++ (i ∷ []) → Reaches expr x y
      reached y h = elim (contains-append y xs (i ∷ []) h) [
        | inl l ↦ all y l
        | inr o ↦ elim (contains-cons y i [] o) [
          | inl e ↦ subst (λ k. Reaches expr x k) e r
          | inr n ↦ not_in_nil n
        ]
      ]

  Chained-target : {v : List ℕ} {i : ℕ} → Chained expr v i → (y : ℕ) → y ∈ v → Reaches expr y i
  Chained-target bottom y h = not_in_nil h
  Chained-target {i} (above {x} {xs} r all rest) y h = elim (contains-cons y x xs h) [
    | inl e ↦ subst (λ k. Reaches expr k i) e r
    | inr m ↦ Chained-target rest y m
  ]

  -- What is marked when the stack has `i` already.
  pub from_found-Reaches :
      {v : List ℕ} {i : ℕ} → Chained expr v i → (y : ℕ) → y ∈ from_found i v → Reaches expr y y
  from_found-Reaches bottom y h = not_in_nil h
  from_found-Reaches {i} (above {x} {xs} r all rest) y h = elim (Bool-cases (x == i)) [
    | inl e ↦ around ((==_iff x i).0 e) (contains-cons y x xs (rw e at h))
    | inr e ↦ from_found-Reaches rest y (rw e at h)
  ]
    where
      around : x ≡ i → (x ≡ y) ⊎ (y ∈ xs) → Reaches expr y y
      around e (inl same) =
          subst (λ k. Reaches expr k k) same (subst (λ k. Reaches expr x k) (sym e) r)
      around e (inr m) =
          Reaches-trans (subst (λ k. Reaches expr y k) (sym e) (Chained-target rest y m)) (all y m)

pub from_found-self : (i : ℕ) (v : List ℕ) → i ∈ v → i ∈ from_found i v
from_found-self i [] h = not_in_nil h
from_found-self i (x ∷ xs) h = elim (Bool-cases (x == i)) [
  | inl t ↦ rw t h
  | inr f ↦ rw f (from_found-self i xs (rw f at h))
]

-- How many identifiers of a list are not on the stack.
abbrev pub unvisited : List ℕ → List ℕ → ℕ
unvisited [] v = 0
unvisited (x ∷ xs) v = if contains x v then unvisited xs v else suc (unvisited xs v)

pub unvisited-nil : (all : List ℕ) → unvisited all [] ≡ length all
unvisited-nil [] = refl
unvisited-nil (x ∷ xs) = ap suc (unvisited-nil xs)

unvisited-le : (all v : List ℕ) (i : ℕ) → unvisited all (v ++ (i ∷ [])) ≤ unvisited all v
unvisited-le [] v i = omega arith
unvisited-le (x ∷ xs) v i = elim (Bool-cases (contains x v)) [
  | inl e ↦ rw (e, contains-append_left x v (i ∷ []) e) (unvisited-le xs v i)
  | inr e ↦ elim (Bool-cases (contains x (v ++ (i ∷ [])))) [
    | inl f ↦ rw (e, f) (omega (arith, unvisited-le xs v i))
    | inr f ↦ rw (e, f) (omega (arith, unvisited-le xs v i))
  ]
]

pub unvisited-push :
    (all v : List ℕ) (i : ℕ)
    → i ∈ all
    → contains i v ≡ false
    → unvisited all (v ++ (i ∷ [])) < unvisited all v
unvisited-push [] v i h new = not_in_nil h
unvisited-push (x ∷ xs) v i h new = elim (contains-cons i x xs h) [
  | inl e ↦
      rw
        (
          subst (λ k. contains k v ≡ false) (sym e) new,
          contains-append_right x v (i ∷ []) (subst (λ k. x ∈ k ∷ []) e (contains-head x [])),
        )
        (omega (arith, unvisited-le xs v i))
  | inr m ↦ elim (Bool-cases (contains x v)) [
    | inl e ↦ rw (e, contains-append_left x v (i ∷ []) e) (unvisited-push xs v i m new)
    | inr e ↦ elim (Bool-cases (contains x (v ++ (i ∷ [])))) [
      | inl f ↦ rw (e, f) (omega (arith, unvisited-push xs v i m new))
      | inr f ↦ rw (e, f) (omega (arith, unvisited-push xs v i m new))
    ]
  ]
]
