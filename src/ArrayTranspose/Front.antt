-- ===== src/ArrayTranspose/Front.antt =====
-- frontend/array_transpose.cpp: the order that moves one dimension to the front, and lists in that order.
use arrp.Common.{
  ℕ, zero, suc, ◌+◌, ◌≡◌, refl, sym, ap, ◌∙◌, ◌↔◌, Bool, true, false, Bool-cases, inl, inr, List,
  [], ◌∷◌, ◌++◌, length, arith,
}
use arrp.Common.Int.{ℤ, pos, ltb_ℤ}
use mathlib.Core.List.{append_assoc, append-nil}
use arrp.FuncType.{ArraySizeVec}
use arrp.ArrayTranspose.{ok, order_dimension, order_dimensions, transpose_order}

-- k numbers from i on.
abbrev pub range : ℕ → ℕ → List ℕ
range i zero = []
range i (suc k) = i ∷ range (suc i) k

abbrev pub AllFinite : ArraySizeVec → Type 0
AllFinite [] = Unit
AllFinite (n ∷ size) = (ltb_ℤ n (pos 0) ≡ false) × AllFinite size

-- Exactly one dimension is infinite, the one behind `before`.
pub record Streaming (size before : ArraySizeVec) (n : ℤ) (after : ArraySizeVec) : Type 0 where
  pub parts : size ≡ before ++ n ∷ after
  pub before_finite : AllFinite before
  pub infinite : ltb_ℤ n (pos 0) ≡ true
  pub after_finite : AllFinite after

-- The order with dimension m of m + 1 + k at the front.
abbrev pub front : ℕ → ℕ → List ℕ
front m k = m ∷ range 0 m ++ range (suc m) k

range_append :
    (i : ℕ) (o : List ℕ) (k : ℕ) → (o ++ i ∷ []) ++ range (suc i) k ≡ o ++ range i (suc k)
range_append i o k = append_assoc o (i ∷ []) (range (suc i) k)

-- The rounds that are left, once there is an infinite dimension and before.
with_streaming :
    (size : ArraySizeVec) (i : ℕ) (o : List ℕ)
    → AllFinite size
    → order_dimensions (true, o) i size ≡ ok (true, o ++ range i (length size))
unfolding order_dimensions order_dimension
with_streaming [] i o h = ap (λ l. ok (true, l)) (sym (append-nil o))
with_streaming (n ∷ size) i o h = rw h.0 (
    with_streaming size (suc i) (o ++ i ∷ []) h.1
    ∙ ap (λ l. ok (true, l)) (range_append i o (length size)))

without_streaming :
    (size after : ArraySizeVec) (n : ℤ) (i : ℕ) (o : List ℕ)
    → AllFinite size
    → ltb_ℤ n (pos 0) ≡ true
    → AllFinite after
    → order_dimensions (false, o) i (size ++ n ∷ after)
      ≡ ok (
        true,
        (i + length size) ∷ (o ++ range i (length size))
            ++ range (suc (i + length size)) (length after),
      )
unfolding order_dimensions order_dimension
without_streaming [] after n i o f h g =
    rw h (with_streaming after (suc i) (i ∷ o) g ∙ ap (λ l. ok (true, l)) (at_end i))
  where
    at_end :
        (i : ℕ)
        → (i ∷ o) ++ range (suc i) (length after)
          ≡ (i + 0) ∷ (o ++ []) ++ range (suc (i + 0)) (length after)
    at_end i = rw (append-nil o, plus i) refl
      where
        plus : (i : ℕ) → i + 0 ≡ i
        plus i = omega arith
without_streaming (k ∷ size) after n i o f h g =
    rw f.0
      (without_streaming size after n (suc i) (o ++ i ∷ []) f.1 h g ∙ ap (λ l. ok (true, l)) next)
  where
    shifted : suc i + length size ≡ i + suc (length size)
    shifted = omega arith

    next :
        (suc i + length size) ∷ ((o ++ i ∷ []) ++ range (suc i) (length size))
          ++ range (suc (suc i + length size)) (length after)
        ≡ (i + suc (length size)) ∷ (o ++ range i (suc (length size)))
          ++ range (suc (i + suc (length size))) (length after)
    next = rw (shifted, range_append i o (length size)) refl

finite_suffix :
    (size : ArraySizeVec) (i : ℕ) (o order : List ℕ) (s : Bool)
    → order_dimensions (true, o) i size ≡ ok (s, order)
    → AllFinite size
unfolding order_dimensions order_dimension
finite_suffix [] i o order s h = tt
finite_suffix (n ∷ size) i o order s h = elim (Bool-cases (ltb_ℤ n (pos 0))) [
  | inl e ↦ cc (rw e at h)
  | inr e ↦ (e, finite_suffix size (suc i) (o ++ i ∷ []) order s (rw e at h))
]

one-Streaming :
    (size : ArraySizeVec) (i : ℕ) (o order : List ℕ)
    → order_dimensions (false, o) i size ≡ ok (true, order)
    → (before : ArraySizeVec) × (n : ℤ) × (after : ArraySizeVec) × Streaming size before n after
unfolding order_dimensions order_dimension
one-Streaming [] i o order h = cc
one-Streaming (n ∷ size) i o order h = elim (Bool-cases (ltb_ℤ n (pos 0))) [
  | inl e ↦ (
    [],
    n,
    size,
    record {
      parts = refl;
      before_finite = tt;
      infinite = e;
      after_finite = finite_suffix size (suc i) (i ∷ o) order true (rw e at h);
    },
  )
  | inr e ↦
      let (before, m, after, s) = one-Streaming size (suc i) (o ++ i ∷ []) order (rw e at h) in
      (
        n ∷ before,
        m,
        after,
        record {
          parts = ap (λ l. n ∷ l) s.parts;
          before_finite = (e, s.before_finite);
          infinite = s.infinite;
          after_finite = s.after_finite;
        },
      )
]

ok-inj {ℓ} : {A : Type ℓ} {x y : A} → ok x ≡ ok y → x ≡ y
ok-inj h = cc

Streaming-order :
    {size before : ArraySizeVec} {n : ℤ} {after : ArraySizeVec}
    → Streaming size before n after
    → transpose_order size ≡ ok (true, front (length before) (length after))
unfolding transpose_order
Streaming-order {before} {n} {after} s =
    ap (order_dimensions (false, []) 0) s.parts
    ∙ without_streaming before after n 0 [] s.before_finite s.infinite s.after_finite
    ∙ ap (λ m. ok (true, m ∷ range 0 (length before) ++ range (suc m) (length after)))
        (zero_add (length before))
  where
    zero_add : (m : ℕ) → 0 + m ≡ m
    zero_add m = omega arith

-- An order is found exactly for a size with one infinite dimension; it has that dimension at the front and
-- the others in their order.
pub transpose_order_iff :
    (size : ArraySizeVec) (order : List ℕ)
    → (transpose_order size ≡ ok (true, order)) ↔ (
        (before : ArraySizeVec) × (n : ℤ) × (after : ArraySizeVec) × Streaming size before n after
        × (order ≡ front (length before) (length after)))
transpose_order_iff size order =
    (to_parts, λ (before, n, after, s, e). Streaming-order s ∙ ap (λ o. ok (true, o)) (sym e))
  where
    to_parts :
        transpose_order size ≡ ok (true, order)
        → (before : ArraySizeVec) × (n : ℤ) × (after : ArraySizeVec) × Streaming size before n after
          × (order ≡ front (length before) (length after))
    to_parts h =
        let (before, n, after, s) = one-Streaming size 0 [] order (unfold transpose_order in h) in
        (before, n, after, s, ap (λ (p : Bool × List ℕ). p.1) (ok-inj (sym h ∙ Streaming-order s)))
