-- ===== src/FuncType/ArraySize.antt =====
-- common/func_types.cpp: `common_array_size`, the size of the result of an operation whose operands are
-- arrays. A dimension of size 1 is spread over the size of the other operand, and so is a missing one.
use arrp.Common.{
  ◌≡◌, ◌↔◌, ◌⊎◌, inl, inr, refl, sym, ◌∙◌, ap₂, true, not, ◌&&◌, if◌then◌else◌, [], ◌∷◌, Option,
  none, some, arith, subst,
}
use arrp.Common.Int.{ℤ, pos}
use mathlib.Core.Path.{fun_ext}
use arrp.Common.Partial.{◌>>=◌, >>=-eq-some, some_inj}
use arrp.FuncType.{ArraySizeVec, same_int}

-- One round of the first loop. `none` is the exception `no_type`.
abbrev common_dim : ℤ → ℤ → Option ℤ
common_dim a b =
    if not (same_int a b) && (not (same_int a (pos 1)) && not (same_int b (pos 1)))
    then none
    else if same_int a (pos 1)
    then some b
    else some a

-- The first loop, over the common dimensions, and the second, over those that one size lacks.
unfoldable pub common_dims : ArraySizeVec → ArraySizeVec → Option ArraySizeVec
common_dims [] ys = some ys
common_dims (x ∷ xs) [] = some (x ∷ xs)
common_dims (x ∷ xs) (y ∷ ys) = do d ← common_dim x y; rest ← common_dims xs ys; some (d ∷ rest)

unfoldable pub common_array_size : ArraySizeVec → ArraySizeVec → Option ArraySizeVec
common_array_size [] b = some b
common_array_size (x ∷ xs) [] = some (x ∷ xs)
common_array_size (x ∷ xs) (y ∷ ys) = common_dims (x ∷ xs) (y ∷ ys)

pub common_array_size_nil : (s : ArraySizeVec) → common_array_size [] s ≡ some s
unfolding common_array_size
common_array_size_nil s = refl

-- The two early returns agree with the loops.
common_array_size-dims : (a b : ArraySizeVec) → common_array_size a b ≡ common_dims a b
unfolding common_array_size common_dims
common_array_size-dims [] b = refl
common_array_size-dims (x ∷ xs) [] = refl
common_array_size-dims (x ∷ xs) (y ∷ ys) = refl

same_int_iff : (a b : ℤ) → (same_int a b ≡ true) ↔ (a ≡ b)
same_int_iff a b = ground arith

-- A size can be spread over another: dimension by dimension it is the same, or 1, or missing.
abbrev pub Spreads : ArraySizeVec → ArraySizeVec → Type 0
Spreads [] s = Unit
Spreads (x ∷ xs) [] = ⊥
Spreads (x ∷ xs) (y ∷ ys) = ((x ≡ y) ⊎ (x ≡ pos 1)) × Spreads xs ys

pub Spreads-refl : (s : ArraySizeVec) → Spreads s s
Spreads-refl [] = tt
Spreads-refl (x ∷ xs) = (inl refl, Spreads-refl xs)

pub Spreads-trans : (a b c : ArraySizeVec) → Spreads a b → Spreads b c → Spreads a c
Spreads-trans [] b c h k = tt
Spreads-trans (x ∷ xs) [] c h k = absurd h
Spreads-trans (x ∷ xs) (y ∷ ys) [] h k = absurd k
Spreads-trans (x ∷ xs) (y ∷ ys) (z ∷ zs) h k = (dim_trans h.0 k.0, Spreads-trans xs ys zs h.1 k.1)
  where
    dim_trans : (x ≡ y) ⊎ (x ≡ pos 1) → (y ≡ z) ⊎ (y ≡ pos 1) → (x ≡ z) ⊎ (x ≡ pos 1)
    dim_trans (inl e) (inl f) = inl (e ∙ f)
    dim_trans (inl e) (inr f) = inr (e ∙ f)
    dim_trans (inr e) f = inr e

common_dim_sound :
    (x y d : ℤ) → common_dim x y ≡ some d → ((x ≡ d) ⊎ (x ≡ pos 1)) × ((y ≡ d) ⊎ (y ≡ pos 1))
common_dim_sound x y d h = ground arith

common_dim_least :
    (x y s : ℤ)
    → (x ≡ s) ⊎ (x ≡ pos 1)
    → (y ≡ s) ⊎ (y ≡ pos 1)
    → (d : ℤ) × (common_dim x y ≡ some d) × ((d ≡ s) ⊎ (d ≡ pos 1))
common_dim_least x y s h k = (if same_int x (pos 1) then y else x, ground arith, ground arith)

common_dims_sound :
    (a b : ArraySizeVec) {r : ArraySizeVec} → common_dims a b ≡ some r → Spreads a r × Spreads b r
unfolding common_dims
common_dims_sound [] ys h = (tt, subst (Spreads ys) (some_inj h) (Spreads-refl ys))
common_dims_sound (x ∷ xs) [] h =
    (subst (Spreads (x ∷ xs)) (some_inj h) (Spreads-refl (x ∷ xs)), tt)
common_dims_sound (x ∷ xs) (y ∷ ys) h =
    let (d, hd, h') = >>=-eq-some (common_dim x y) _ h in
    let (rest, hr, e) = >>=-eq-some (common_dims xs ys) _ h' in
    let head = common_dim_sound x y d hd in
    let tail = common_dims_sound xs ys hr in
    subst (λ s. Spreads (x ∷ xs) s × Spreads (y ∷ ys) s) (some_inj e)
      ((head.0, tail.0), (head.1, tail.1))

common_dims_least :
    (a b s : ArraySizeVec)
    → Spreads a s
    → Spreads b s
    → (r : ArraySizeVec) × (common_dims a b ≡ some r) × Spreads r s
unfolding common_dims
common_dims_least [] ys s h k = (ys, refl, k)
common_dims_least (x ∷ xs) [] s h k = (x ∷ xs, refl, h)
common_dims_least (x ∷ xs) (y ∷ ys) [] h k = absurd h
common_dims_least (x ∷ xs) (y ∷ ys) (s ∷ ss) h k =
    let (d, hd, fits) = common_dim_least x y s h.0 k.0 in
    let (rest, hr, tail) = common_dims_least xs ys ss h.1 k.1 in
    (d ∷ rest, rw (hd, hr), (fits, tail))

-- The common size is one over which both sizes can be spread.
pub common_array_size_sound :
    (a b : ArraySizeVec) {r : ArraySizeVec}
    → common_array_size a b ≡ some r
    → Spreads a r × Spreads b r
common_array_size_sound a b h = common_dims_sound a b (rw common_array_size-dims at h)

-- If both sizes can be spread over some size, there is a common size, and it can be spread over that
-- one: the exception is thrown only for sizes that fit nowhere.
common_array_size_least :
    (a b s : ArraySizeVec)
    → Spreads a s
    → Spreads b s
    → (r : ArraySizeVec) × (common_array_size a b ≡ some r) × Spreads r s
common_array_size_least a b s h k = rw common_array_size-dims (common_dims_least a b s h k)

common_dims_comm : (a b : ArraySizeVec) → common_dims a b ≡ common_dims b a
unfolding common_dims
common_dims_comm [] [] = refl
common_dims_comm [] (y ∷ ys) = refl
common_dims_comm (x ∷ xs) [] = refl
common_dims_comm (x ∷ xs) (y ∷ ys) = rw (common_dims_comm xs ys, dim_comm x y)
  where
    dim_comm : (x y : ℤ) → common_dim x y ≡ common_dim y x
    dim_comm x y = ground arith

-- The order of two sizes does not matter, to the common size and to the exception.
pub common_array_size_comm : (a b : ArraySizeVec) → common_array_size a b ≡ common_array_size b a
common_array_size_comm a b =
    common_array_size-dims a b ∙ common_dims_comm a b ∙ sym (common_array_size-dims b a)

dim_assoc :
    (x y z : ℤ)
    → (common_dim x y >>= λ d. common_dim d z) ≡ (common_dim y z >>= λ d. common_dim x d)
dim_assoc x y z = ground arith

abbrev join : Option ℤ → Option ArraySizeVec → Option ArraySizeVec
join m n = do d ← m; rest ← n; some (d ∷ rest)

join-none : (m : Option ℤ) → join m none ≡ none
join-none none = refl
join-none (some d) = refl

join-left :
    (m : Option ℤ) (n : Option ArraySizeVec) (z : ℤ) (zs : ArraySizeVec)
    → (join m n >>= λ r. common_dims r (z ∷ zs))
      ≡ join (m >>= λ d. common_dim d z) (n >>= λ r. common_dims r zs)
unfolding common_dims
join-left none n z zs = refl
join-left (some d) none z zs = sym (join-none (common_dim d z))
join-left (some d) (some r) z zs = refl

join-right :
    (m : Option ℤ) (n : Option ArraySizeVec) (x : ℤ) (xs : ArraySizeVec)
    → (join m n >>= λ r. common_dims (x ∷ xs) r)
      ≡ join (m >>= λ d. common_dim x d) (n >>= λ r. common_dims xs r)
unfolding common_dims
join-right none n x xs = refl
join-right (some d) none x xs = sym (join-none (common_dim x d))
join-right (some d) (some r) x xs = refl

common_dims_assoc :
    (a b c : ArraySizeVec)
    → (common_dims a b >>= λ r. common_dims r c) ≡ (common_dims b c >>= λ r. common_dims a r)
unfolding common_dims
common_dims_assoc [] b c = ground arith
common_dims_assoc (x ∷ xs) [] c = refl
common_dims_assoc (x ∷ xs) (y ∷ ys) [] = ground arith
common_dims_assoc (x ∷ xs) (y ∷ ys) (z ∷ zs) =
    join-left (common_dim x y) (common_dims xs ys) z zs
    ∙ ap₂ join (dim_assoc x y z) (common_dims_assoc xs ys zs)
    ∙ sym (join-right (common_dim y z) (common_dims ys zs) x xs)

-- The sizes of several operands can be joined in any grouping: the result, or the exception, is the
-- same.
common_array_size_assoc :
    (a b c : ArraySizeVec)
    → (common_array_size a b >>= λ r. common_array_size r c)
      ≡ (common_array_size b c >>= λ r. common_array_size a r)
common_array_size_assoc a b c =
    rw (fun_ext (λ x. fun_ext (common_array_size-dims x))) (common_dims_assoc a b c)
