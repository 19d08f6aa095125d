-- ===== src/ArrayTranspose/Access.antt =====
-- frontend/array_transpose.cpp: the variables of an array and the arguments of an access, in the new order.
use arrp.Common.{
  ℕ, zero, suc, ◌+◌, ◌≤◌, le→leb, ◌≡◌, refl, sym, ap, subst, ◌∙◌, true, ◌⊎◌, inl, inr, some, List,
  [], ◌∷◌, ◌++◌, length, length-append, arith,
}
use mathlib.Core.List.{Perm, perm_middle}
use mathlib.Core.List.Perm
use arrp.FuncType.{ArraySizeVec}
use arrp.ArrayTranspose.{
  ok, transpose_order, reorder, implicit_dimension, implicit_argument, visit_array_app,
}
use arrp.ArrayTranspose.Front.{front, transpose_order_iff}
use arrp.ArrayTranspose.Reorder.{reorder-front, reorder_short}

abbrev pub zip {ℓ κ} : {X : Type ℓ} {Y : Type κ} → List X → List Y → List (X × Y)
zip [] ys = []
zip (x ∷ xs) [] = []
zip (x ∷ xs) (y ∷ ys) = (x, y) ∷ zip xs ys

-- Both parts of a list of pairs, at the place of an element of one of them.
module _ {ℓ κ} {X : Type ℓ} {Y : Type κ} where
  zip-middle :
      (b : List X) (x : X) (a : List X) (b' : List Y) (y : Y) (a' : List Y)
      → length b ≡ length b'
      → zip (b ++ x ∷ a) (b' ++ y ∷ a') ≡ zip b b' ++ (x, y) ∷ zip a a'
  zip-middle [] x a [] y a' h = refl
  zip-middle [] x a (c ∷ b') y a' h = absurd (omega arith)
  zip-middle (c ∷ b) x a [] y a' h = absurd (omega arith)
  zip-middle (c ∷ b) x a (d ∷ b') y a' h =
      ap (λ l. (c, d) ∷ l) (zip-middle b x a b' y a' (omega arith))

  zip-append :
      (b a : List X) (b' a' : List Y)
      → length b ≡ length b'
      → zip (b ++ a) (b' ++ a') ≡ zip b b' ++ zip a a'
  zip-append [] a [] a' h = refl
  zip-append [] a (c ∷ b') a' h = absurd (omega arith)
  zip-append (c ∷ b) a [] a' h = absurd (omega arith)
  zip-append (c ∷ b) a (d ∷ b') a' h = ap (λ l. (c, d) ∷ l) (zip-append b a b' a' (omega arith))

-- The element at a place, and what stands before and behind it; or the list is too short.
at_place {ℓ} :
    {X : Type ℓ} (m : ℕ) (xs : List X)
    → ((b : List X) × (x : X) × (a : List X) × (xs ≡ b ++ x ∷ a) × (length b ≡ m)) ⊎ (length xs ≤ m)
at_place m [] = inr (omega arith)
at_place zero (x ∷ xs) = inl ([], x, xs, refl, refl)
at_place (suc m) (y ∷ xs) = elim (at_place m xs) [
  | inl (b, x, a, e, h) ↦ inl (y ∷ b, x, a, ap (λ l. y ∷ l) e, ap suc h)
  | inr h ↦ inr (omega arith)
]

ok-inj {ℓ} : {A : Type ℓ} {x y : A} → ok x ≡ ok y → x ≡ y
ok-inj h = cc

-- The arguments in the new order, and the pairs of variables and arguments.
abbrev pub Bound {ℓ κ} :
    {X : Type ℓ} {Y : Type κ} → List ℕ → List X → List X → List Y → Type (ℓ ⊔ κ)
Bound {Y} order vars vars' args =
    (args' : List Y) × (reorder implicit_argument order args ≡ ok args')
    × Perm (zip vars args) (zip vars' args')

module _ {ℓ κ} {X : Type ℓ} {Y : Type κ} where
  pairs_moved :
      (n : ℕ) (vars' b : List X) (x : X) (a : List X) (b' : List Y) (y : Y) (a' : List Y)
      → length b ≡ length b'
      → length a ≤ n
      → length a' ≤ n
      → reorder implicit_dimension (front (length b) n) (b ++ x ∷ a) ≡ ok vars'
      → Bound (front (length b) n) (b ++ x ∷ a) vars' (b' ++ y ∷ a')
  pairs_moved n vars' b x a b' y a' l small small' h = (
    y ∷ b' ++ a',
    subst (λ m. reorder implicit_argument (front m n) (b' ++ y ∷ a') ≡ ok (y ∷ b' ++ a')) (sym l)
        (reorder-front implicit_argument b' y a' n small'),
    subst (λ ps. Perm ps (zip vars' (y ∷ b' ++ a'))) (sym (zip-middle b x a b' y a' l))
        (subst (λ vs. Perm (zip b b' ++ (x, y) ∷ zip a a') (zip vs (y ∷ b' ++ a')))
          (ok-inj (sym (reorder-front implicit_dimension b x a n small) ∙ h))
          (subst (λ ps. Perm (zip b b' ++ (x, y) ∷ zip a a') ((x, y) ∷ ps))
            (sym (zip-append b a b' a' l)) (perm_middle (zip b b') (zip a a')))),
  )

  zip-nil : (xs : List X) → zip {Y = Y} xs [] ≡ []
  zip-nil [] = refl
  zip-nil (x ∷ xs) = refl

  no_pairs :
      (m n : ℕ) (vars vars' : List X) (args : List Y)
      → length args ≡ length vars
      → length vars ≤ m
      → reorder implicit_dimension (front m n) vars ≡ ok vars'
      → Bound (front m n) vars vars' args
  unfolding reorder
  no_pairs m n [] vars' [] same short h = (
    [],
    rw (le→leb 0 (length (front m n)) (omega arith)) refl,
    subst (λ ps. Perm [] ps) (sym (zip-nil vars')) Perm.rfl,
  )
  no_pairs m n [] vars' (y ∷ args) same short h = absurd (omega arith)
  no_pairs m n (x ∷ vars) vars' args same short h =
      absurd (reorder_short implicit_dimension x vars m n short h)

  reorder_pairs :
      (m n : ℕ) (vars vars' : List X) (args : List Y)
      → length args ≡ length vars
      → length vars ≤ suc (m + n)
      → reorder implicit_dimension (front m n) vars ≡ ok vars'
      → Bound (front m n) vars vars' args
  reorder_pairs m n vars vars' args same small h = elim (at_place m vars) [
    | inr short ↦ no_pairs m n vars vars' args same short h
    | inl (b, x, a, e, l) ↦ elim (at_place m args) [
      | inr short ↦ absurd (omega (arith, ap length e, length-append b (x ∷ a)))
      | inl (b', y, a', e', l') ↦
          rw (e, e', sym l)
            (pairs_moved n vars' b x a b' y a' (l ∙ sym l')
              (omega (arith, ap length e, length-append b (x ∷ a)))
              (omega (arith, ap length e', length-append b' (y ∷ a'))) (rw (e, sym l) at h))
    ]
  ]

-- If an array can be transposed, so can each access that has as many arguments as the array has variables,
-- and each variable is bound to the same argument as before.
pub visit_array_app_lem {ℓ κ} :
    {X : Type ℓ} {Y : Type κ} (size : ArraySizeVec) (order : List ℕ) (vars vars' : List X)
    (args : List Y)
    → transpose_order size ≡ ok (true, order)
    → length vars ≤ length size
    → length args ≡ length vars
    → reorder implicit_dimension order vars ≡ ok vars'
    → (args' : List Y) × (visit_array_app (some order) args ≡ ok args')
      × Perm (zip vars args) (zip vars' args')
unfolding visit_array_app
visit_array_app_lem size order vars vars' args t small same h =
    let (before, n, after, s, e) = (transpose_order_iff size order).0 t in
    rw e (
      reorder_pairs (length before) (length after) vars vars' args same
        (omega (arith, ap length s.parts, length-append before (n ∷ after))) (rw e at h))
