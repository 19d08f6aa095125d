-- ===== src/ArrayTranspose/Reorder.antt =====
-- frontend/array_transpose.cpp: a list in the order that moves one place to the front.
use arrp.Common.{
  ℕ, zero, suc, ◌+◌, ◌≤◌, le→leb, ◌≡◌, refl, ap, ap₂, ◌≢◌, subst, ◌∙◌, List, [], ◌∷◌, ◌++◌, length,
  length-append, arith,
}
use mathlib.Core.List.{append_assoc}
use arrp.ArrayTranspose.{TransposeError, Transposed, ok, failed, ◌>>=◌, pick, reorder_loop, reorder}
use arrp.ArrayTranspose.Front.{range, front}

length-range : (i k : ℕ) → length (range i k) ≡ k
length-range i zero = refl
length-range i (suc k) = ap suc (length-range (suc i) k)

length-front : (m n : ℕ) → length (front m n) ≡ suc (m + n)
length-front m n = ap suc (
    length-append (range 0 m) (range (suc m) n)
    ∙ ap₂ (λ (i j : ℕ). i + j) (length-range 0 m) (length-range (suc m) n))

module _ {ℓ} {A : Type ℓ} where
  pick_middle :
      (e : TransposeError) (xs : List A) (y : A) (zs : List A)
      → pick e (xs ++ y ∷ zs) (length xs) ≡ ok y
  pick_middle e [] y zs = refl
  pick_middle e (x ∷ xs) y zs = pick_middle e xs y zs

  pick_outside : (e : TransposeError) (xs : List A) (i : ℕ) → length xs ≤ i → pick e xs i ≡ failed e
  pick_outside e [] i h = refl
  pick_outside e (x ∷ xs) zero h = absurd (omega arith)
  pick_outside e (x ∷ xs) (suc i) h = pick_outside e xs i (omega arith)

  length-snoc : (xs : List A) (y : A) → length (xs ++ y ∷ []) ≡ suc (length xs)
  length-snoc xs y = omega (arith, length-append xs (y ∷ []))

  -- As many more as there are elements.
  abbrev plus : List A → ℕ → ℕ
  plus [] k = k
  plus (x ∷ xs) k = suc (plus xs k)

  plus-length : (xs : List A) (k : ℕ) → plus xs k ≡ length xs + k
  plus-length [] k = omega arith
  plus-length (x ∷ xs) k = omega (arith, plus-length xs k)

  -- A run of indices gives a run of the list.
  reorder_run :
      (e : TransposeError) (pre mid post : List A) (order : List ℕ) (k : ℕ)
      → reorder_loop e
          (pre ++ (mid ++ post))
          (range (length pre) (length mid) ++ order)
          (plus mid k)
        ≡ (reorder_loop e (pre ++ (mid ++ post)) order k >>= λ rest. ok (mid ++ rest))
  reorder_run e pre [] post order k = same (reorder_loop e (pre ++ post) order k)
    where
      same : (m : Transposed (List A)) → m ≡ (m >>= λ rest. ok rest)
      same (ok x) = refl
      same (failed e) = refl
  reorder_run e pre (x ∷ mid) post order k =
      let moved : reorder_loop e (pre ++ (x ∷ mid ++ post))
            (range (suc (length pre)) (length mid) ++ order) (plus mid k)
          ≡ (reorder_loop e (pre ++ (x ∷ mid ++ post)) order k >>= λ rest. ok (mid ++ rest)) =
        subst
          (λ xs.
            reorder_loop e xs (range (suc (length pre)) (length mid) ++ order) (plus mid k)
            ≡ (reorder_loop e xs order k >>= λ rest. ok (mid ++ rest)))
          (append_assoc pre (x ∷ []) (mid ++ post))
          (subst
            (λ i.
              reorder_loop e ((pre ++ x ∷ []) ++ (mid ++ post)) (range i (length mid) ++ order)
                (plus mid k)
              ≡ (reorder_loop e ((pre ++ x ∷ []) ++ (mid ++ post)) order k >>= λ rest.
                  ok (mid ++ rest)))
            (length-snoc pre x) (reorder_run e (pre ++ x ∷ []) mid post order k)) in
      rw (pick_middle e pre x (mid ++ post)) (
        ap (λ m. m >>= λ rest. ok (x ∷ rest)) moved
        ∙ assoc (reorder_loop e (pre ++ (x ∷ mid ++ post)) order k))
    where
      assoc :
          (m : Transposed (List A))
          → ((m >>= λ rest. ok (mid ++ rest)) >>= λ rest. ok (x ∷ rest))
            ≡ (m >>= λ rest. ok (x ∷ mid ++ rest))
      assoc (ok r) = refl
      assoc (failed e) = refl

  -- A run of indices that starts there and is long enough gives the rest of the list.
  reorder_rest :
      (e : TransposeError) (pre rest : List A) (n : ℕ)
      → length rest ≤ n
      → reorder_loop e (pre ++ rest) (range (length pre) n) (length rest) ≡ ok rest
  reorder_rest e pre [] n h = refl
  reorder_rest e pre (x ∷ rest) zero h = absurd (omega arith)
  reorder_rest e pre (x ∷ rest) (suc n) h =
      let moved : reorder_loop e (pre ++ x ∷ rest) (range (suc (length pre)) n) (length rest)
          ≡ ok rest =
        subst (λ xs. reorder_loop e xs (range (suc (length pre)) n) (length rest) ≡ ok rest)
          (append_assoc pre (x ∷ []) rest)
          (subst (λ i. reorder_loop e ((pre ++ x ∷ []) ++ rest) (range i n) (length rest) ≡ ok rest)
            (length-snoc pre x) (reorder_rest e (pre ++ x ∷ []) rest n (omega arith))) in
      rw (pick_middle e pre x rest) (ap (λ m. m >>= λ rest. ok (x ∷ rest)) moved)

  -- The element at the place in question comes to the front.
  pub reorder-front :
      (e : TransposeError) (b : List A) (x : A) (a : List A) (n : ℕ)
      → length a ≤ n
      → reorder e (front (length b) n) (b ++ x ∷ a) ≡ ok (x ∷ b ++ a)
  unfolding reorder
  reorder-front e b x a n h =
      rw (le→leb (length (b ++ x ∷ a)) (length (front (length b) n)) fits, count)
        (rw (pick_middle e b x a) (ap (λ m. m >>= λ rest. ok (x ∷ rest)) others))
    where
      total : length (b ++ x ∷ a) ≡ length b + suc (length a)
      total = length-append b (x ∷ a)

      fits : length (b ++ x ∷ a) ≤ length (front (length b) n)
      fits = omega (arith, total, length-front (length b) n)

      count : length (b ++ x ∷ a) ≡ suc (plus b (length a))
      count = omega (arith, total, plus-length b (length a))

      others :
          reorder_loop e
            (b ++ x ∷ a)
            (range 0 (length b) ++ range (suc (length b)) n)
            (plus b (length a))
          ≡ ok (b ++ a)
      others =
          reorder_run e [] b (x ∷ a) (range (suc (length b)) n) (length a)
          ∙ ap (λ m. m >>= λ rest. ok (b ++ rest))
              (subst (λ xs. reorder_loop e xs (range (suc (length b)) n) (length a) ≡ ok a)
                (append_assoc b (x ∷ []) a)
                (subst (λ i. reorder_loop e ((b ++ x ∷ []) ++ a) (range i n) (length a) ≡ ok a)
                  (length-snoc b x) (reorder_rest e (b ++ x ∷ []) a n h)))

  -- A list that does not reach up to that place is refused, unless it is empty.
  pub reorder_short :
      (e : TransposeError) (x : A) (xs : List A) (m n : ℕ) {ys : List A}
      → length (x ∷ xs) ≤ m
      → reorder e (front m n) (x ∷ xs) ≢ ok ys
  unfolding reorder
  reorder_short e x xs m n h k = cc (
      rw
        (
          le→leb (length (x ∷ xs)) (length (front m n)) (omega (arith, length-front m n)),
          pick_outside e (x ∷ xs) m h,
        )
        at k)
