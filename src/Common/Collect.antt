-- ===== src/Common/Collect.antt =====
-- Lists that are read out of an array, index by index: `collect n f` holds what `f` gives at 0, …, n - 1.
-- An index out of range gives nothing.
use Prim.Native.Nat.{ℕ, zero, suc, ◌+◌, ◌<◌}
use mathlib.Core.Path.{◌≡◌, refl, ap, sym, ◌∙◌}
use mathlib.Core.Logic.{◌≢◌}
use mathlib.Core.List.{List, [], ◌∷◌, ◌++◌}
use mathlib.Core.Option.{Option, none, some}
use native.Mathlib.Omega.{arith}
use arrp.Common.{length, get_elem?}

module _ {ℓ} {A : Type ℓ} where
  abbrev pub push_front : Option A → List A → List A
  push_front none xs = xs
  push_front (some x) xs = x ∷ xs

  abbrev pub collect : ℕ → (ℕ → Option A) → List A
  collect zero f = []
  collect (suc n) f = push_front (f 0) (collect n (λ j. f (suc j)))

  pub collect_ext :
      (n : ℕ) (f g : ℕ → Option A) → ((j : ℕ) → j < n → f j ≡ g j) → collect n f ≡ collect n g
  collect_ext zero f g h = refl
  collect_ext (suc n) f g h = rw (
    h 0 (omega arith),
    collect_ext n (λ j. f (suc j)) (λ j. g (suc j)) (λ j l. h (suc j) (omega arith)),
  )

  push_front-append :
      (o : Option A) (xs ys : List A) → push_front o xs ++ ys ≡ push_front o (xs ++ ys)
  push_front-append none xs ys = refl
  push_front-append (some x) xs ys = refl

  -- One more item at the end.
  pub collect_last :
      (n : ℕ) (f : ℕ → Option A) → collect (suc n) f ≡ collect n f ++ push_front (f n) []
  collect_last zero f = refl
  collect_last (suc n) f =
      ap (push_front (f 0)) (collect_last n (λ j. f (suc j)))
      ∙ sym (push_front-append (f 0) (collect n (λ j. f (suc j))) (push_front (f (suc n)) []))

  -- Two runs of indices, one after the other.
  pub collect_add :
      (m n : ℕ) (f : ℕ → Option A) → collect (m + n) f ≡ collect m f ++ collect n (λ j. f (m + j))
  collect_add zero n f =
      ap (λ k. collect k f) (zero_add n) ∙ collect_ext n _ _ (λ j _. ap f (sym (zero_add j)))
    where
      zero_add : (k : ℕ) → 0 + k ≡ k
      zero_add k = omega arith
  collect_add (suc m) n f =
      ap (λ k. collect k f) (suc_add m n)
      ∙ ap (push_front (f 0)) (collect_add m n (λ j. f (suc j)) ∙ shifted)
      ∙ sym (push_front-append (f 0) (collect m (λ j. f (suc j))) _)
    where
      suc_add : (k l : ℕ) → suc k + l ≡ suc (k + l)
      suc_add k l = omega arith

      shifted :
          collect m (λ j. f (suc j)) ++ collect n (λ j. f (suc (m + j)))
          ≡ collect m (λ j. f (suc j)) ++ collect n (λ j. f (suc m + j))
      shifted =
          ap (λ ys. collect m (λ j. f (suc j)) ++ ys)
            (collect_ext n _ _ (λ j _. ap f (sym (suc_add m j))))

module _ {ℓ} {A : Type ℓ} where
  -- Reading a whole list gives the list.
  pub collect_all : (xs : List A) → collect (length xs) (get_elem? xs) ≡ xs
  collect_all [] = refl
  collect_all (x ∷ xs) = ap (λ ys. x ∷ ys) (collect_all xs)

  -- Where each index is in range, as many items are read.
  pub length-collect :
      (n : ℕ) (f : ℕ → Option A) → ((j : ℕ) → j < n → f j ≢ none) → length (collect n f) ≡ n
  length-collect zero f h = refl
  length-collect (suc n) f h =
      length-push_front (f 0) _ (h 0 (omega arith))
      ∙ ap suc (length-collect n (λ j. f (suc j)) (λ j l. h (suc j) (omega arith)))
    where
      length-push_front :
          (o : Option A) (xs : List A) → o ≢ none → length (push_front o xs) ≡ suc (length xs)
      length-push_front none xs ne = absurd (ne refl)
      length-push_front (some x) xs ne = refl

  pub get_elem?-ne-none : (xs : List A) (i : ℕ) → i < length xs → get_elem? xs i ≢ none
  get_elem?-ne-none [] i h e = absurd (omega arith)
  get_elem?-ne-none (x ∷ xs) zero h e = cc
  get_elem?-ne-none (x ∷ xs) (suc i) h e = get_elem?-ne-none xs i (omega arith) e
