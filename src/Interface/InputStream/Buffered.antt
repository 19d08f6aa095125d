-- ===== src/Interface/InputStream/Buffered.antt =====
-- interface/raw/interface.h: the items in the buffer, behind one loop of a transfer and behind a read.
use arrp.Common.{
  ℕ, ◌+◌, ◌-◌, ◌≤◌, ◌≡◌, ◌⊎◌, inl, inr, refl, sym, ap, ◌∙◌, List, [], ◌++◌, length, length-take,
  take, drop, take-append-drop, get_elem?, arith, min,
}
use arrp.Common.Collect.{
  collect, collect_ext, collect_add, collect_all, length-collect, get_elem?-ne-none,
}
use arrp.Interface.InputStream.{InputStream, refill, waiting}
use arrp.Interface.InputStream.Fetch.{Fetched, from}

-- The count is that of the items in the buffer, and the index is among them or behind the last.
pub record IsValid {ℓ} {A : Type ℓ} (s : InputStream A) : Type 0 where
  pub counted : s.buffer_count ≡ length s.buffer
  pub ordered : s.buffer_index ≤ s.buffer_count

module _ {A : Type 0} where
  -- The items of the buffer that are still to be transferred.
  abbrev pub buffered : InputStream A → List A
  buffered s = collect (s.buffer_count - s.buffer_index) (from s.buffer s.buffer_index)

  -- What a loop has taken, and what it leaves.
  pub record Split (n : ℕ) (s : InputStream A) (r : List A × ℕ × ℕ) : Type 0 where
    pub items : r.0 ++ buffered (record s { buffer_index = r.2 }) ≡ buffered s
    pub valid : IsValid (record s { buffer_index = r.2 })
    pub number : length r.0 + r.1 ≡ n
    pub stopped : (r.1 ≡ 0) ⊎ (buffered (record s { buffer_index = r.2 }) ≡ [])

  pub Fetched-Split :
      (n : ℕ) (s : InputStream A) (r : List A × ℕ × ℕ)
      → IsValid s
      → Fetched s.buffer s.buffer_count n s.buffer_index r
      → Split n s r
  Fetched-Split n s r v f = record {
    items =
        ap (λ ys. ys ++ left) f.given
        ∙ ap (λ ys. collect f.number (from s.buffer s.buffer_index) ++ ys)
            (collect_ext (s.buffer_count - r.2) _ _ (λ j _. ap (get_elem? s.buffer) (place j)))
        ∙ sym (collect_add f.number (s.buffer_count - r.2) (from s.buffer s.buffer_index))
        ∙ ap (λ k. collect k (from s.buffer s.buffer_index)) total;
    valid = record { counted = v.counted; ordered = f.bounded };
    number = omega (arith, ap length f.given, given_length, f.missing);
    stopped = elim f.stopped [
      | inl e ↦ inl e
      | inr e ↦ inr (ap (λ k. collect k (from s.buffer r.2)) (nothing e))
    ];
  }
    where
      left : List A
      left = buffered (record s { buffer_index = r.2 })

      place : (j : ℕ) → r.2 + j ≡ s.buffer_index + (f.number + j)
      place j = omega (arith, f.stop)

      total : f.number + (s.buffer_count - r.2) ≡ s.buffer_count - s.buffer_index
      total = omega (arith, f.stop, f.bounded)

      nothing : r.2 ≡ s.buffer_count → s.buffer_count - r.2 ≡ 0
      nothing e = omega arith

      given_length : length (collect f.number (from s.buffer s.buffer_index)) ≡ f.number
      given_length = length-collect f.number (from s.buffer s.buffer_index) (λ j l.
          get_elem?-ne-none s.buffer (s.buffer_index + j)
            (omega (arith, f.stop, f.bounded, v.counted)))

  -- A read leaves in buffer and file what the file held.
  pub refill_lem :
      (s : InputStream A)
      → IsValid (refill s)
        × (waiting (refill s) ≡ s.file)
        × ((refill s).buffer_count ≡ min s.buffer_size (length s.file))
  unfolding refill
  refill_lem s = (
    record { counted = refl; ordered = omega arith },
    ap (λ ys. ys ++ drop s.buffer_size s.file)
          (ap (λ k. collect k (λ j. get_elem? block (0 + j))) (minus_zero (length block))
            ∙ collect_ext (length block) _ _ (λ j _. ap (get_elem? block) (zero_plus j))
            ∙ collect_all block)
        ∙ take-append-drop s.buffer_size s.file,
    length-take s.buffer_size s.file,
  )
    where
      block : List A
      block = take s.buffer_size s.file

      minus_zero : (k : ℕ) → k - 0 ≡ k
      minus_zero k = omega arith

      zero_plus : (k : ℕ) → 0 + k ≡ k
      zero_plus k = omega arith

  pub refill-size : (s : InputStream A) → (refill s).buffer_size ≡ s.buffer_size
  unfolding refill
  refill-size s = refl

  pub refill-index : (s : InputStream A) → (refill s).buffer_index ≡ 0
  unfolding refill
  refill-index s = refl

  pub length-buffered :
      (s : InputStream A) → IsValid s → length (buffered s) ≡ s.buffer_count - s.buffer_index
  length-buffered s v =
      length-collect (s.buffer_count - s.buffer_index) (from s.buffer s.buffer_index)
        (λ j l. get_elem?-ne-none s.buffer (s.buffer_index + j) (omega (arith, v.counted)))
