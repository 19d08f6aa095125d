-- ===== src/Interface/OutputStream/Fill.antt =====
-- interface/raw/interface.h: what one loop of a transfer does to the stream, and the write between two of them.
use arrp.Common.{
  ℕ, suc, ◌+◌, ◌≤◌, ◌<◌, ◌≡◌, ◌⊎◌, inl, inr, refl, sym, ap, ap₂, ◌∙◌, Bool-cases, ltb, ◌==◌, ltb→lt,
  false, List, [], ◌∷◌, ◌++◌, length, get_elem?, set, length-set, get_elem?-set_self,
  get_elem?-set_ne, arith, ==_iff,
}
use mathlib.Core.List.{append_assoc, append-nil}
use arrp.Common.Collect.{collect_ext, collect_last, push_front}
use arrp.Interface.OutputStream.{OutputStream, items, write, fill, flush_full}

-- The buffer has its size, and no more is stored in it.
pub record IsValid {ℓ} {A : Type ℓ} (s : OutputStream A) : Type 0 where
  pub sized : length s.buffer ≡ s.buffer_size
  pub fits : s.buffer_index ≤ s.buffer_size

module _ {A : Type 0} where
  -- All that has been transferred: what is written, and what waits in the buffer.
  abbrev pub sent : OutputStream A → List A
  sent s = s.written ++ items s.buffer_index s.buffer

  -- What a loop of `transfer` has done when it stops.
  pub record Filled (s : OutputStream A) (source : List A) (r : OutputStream A × List A)
      : Type 0 where
    pub taken : List A
    pub split : source ≡ taken ++ r.1
    pub stored : items r.0.buffer_index r.0.buffer ≡ items s.buffer_index s.buffer ++ taken
    pub count : r.0.buffer_index ≡ s.buffer_index + length taken
    pub valid : IsValid r.0
    pub size : r.0.buffer_size ≡ s.buffer_size
    pub kept : r.0.written ≡ s.written
    pub stopped : (r.1 ≡ []) ⊎ (r.0.buffer_index ≡ r.0.buffer_size)

  -- The stream with one more item in its buffer.
  abbrev put : A → OutputStream A → OutputStream A
  put x s = record s { buffer = set s.buffer s.buffer_index x; buffer_index = s.buffer_index + 1 }

  put-IsValid :
      (x : A) (s : OutputStream A) → IsValid s → s.buffer_index < s.buffer_size → IsValid (put x s)
  put-IsValid x s v l = record {
    sized = length-set s.buffer s.buffer_index x ∙ v.sized;
    fits = omega arith;
  }

  items-put :
      (x : A) (s : OutputStream A)
      → IsValid s
      → s.buffer_index < s.buffer_size
      → items (put x s).buffer_index (put x s).buffer ≡ items s.buffer_index s.buffer ++ x ∷ []
  items-put x s v l =
      ap (λ k. items k (put x s).buffer) (add_one s.buffer_index)
      ∙ collect_last s.buffer_index (get_elem? (put x s).buffer)
      ∙ ap₂ ◌++◌
          (collect_ext s.buffer_index _ _
            (λ j h. get_elem?-set_ne s.buffer {i = s.buffer_index} {j = j} x (λ e. omega arith)))
          (ap (λ o. push_front o []) (get_elem?-set_self s.buffer s.buffer_index x (omega arith)))
    where
      add_one : (k : ℕ) → k + 1 ≡ suc k
      add_one k = omega arith

  Filled-cons :
      (x : A) (xs : List A) (s : OutputStream A) (r : OutputStream A × List A)
      → IsValid s
      → s.buffer_index < s.buffer_size
      → Filled (put x s) xs r
      → Filled s (x ∷ xs) r
  Filled-cons x xs s r v l f = record {
    taken = x ∷ f.taken;
    split = ap (λ ys. x ∷ ys) f.split;
    stored =
        f.stored
        ∙ ap (λ ys. ys ++ f.taken) (items-put x s v l)
        ∙ append_assoc (items s.buffer_index s.buffer) (x ∷ []) f.taken;
    count = omega (arith, f.count);
    valid = f.valid;
    size = f.size;
    kept = f.kept;
    stopped = f.stopped;
  }

  pub fill-Filled :
      (source : List A) (s : OutputStream A) → IsValid s → Filled s source (fill s source)
  unfolding fill
  fill-Filled [] s v = record {
    taken = [];
    split = refl;
    stored = sym (append-nil _);
    count = omega arith;
    valid = v;
    size = refl;
    kept = refl;
    stopped = inl refl;
  }
  fill-Filled (x ∷ xs) s v = elim (Bool-cases (ltb s.buffer_index s.buffer_size)) [
    | inl more ↦
        let l = ltb→lt s.buffer_index s.buffer_size more in
        rw more (
          Filled-cons x xs s (fill (put x s) xs) v l
            (fill-Filled xs (put x s) (put-IsValid x s v l)))
    | inr full ↦ rw full (record {
      taken = [];
      split = refl;
      stored = sym (append-nil _);
      count = omega arith;
      valid = v;
      size = refl;
      kept = refl;
      stopped = inr (stop full v);
    })
  ]
    where
      stop :
          {t : OutputStream A}
          → ltb t.buffer_index t.buffer_size ≡ false
          → IsValid t
          → t.buffer_index ≡ t.buffer_size
      stop e w = ground arith

  -- The write between the loops loses nothing, and leaves room unless the buffer has no place at all.
  pub flush_full_lem :
      (s : OutputStream A)
      → IsValid s
      → IsValid (flush_full s)
        × (sent (flush_full s) ≡ sent s)
        × ((flush_full s).buffer_size ≡ s.buffer_size)
        × ((s.buffer_index ≡ s.buffer_size) → (flush_full s).buffer_index ≡ 0)
  unfolding flush_full write
  flush_full_lem s v = elim (Bool-cases (s.buffer_index == s.buffer_size)) [
    | inl e ↦
        let full = (==_iff s.buffer_index s.buffer_size).0 e in
        rw e (
          record { sized = v.sized; fits = omega arith },
          append-nil _ ∙ ap (λ k. s.written ++ items k s.buffer) (sym full),
          refl,
          λ _. refl,
        )
    | inr e ↦ rw e (v, refl, refl, λ full. absurd (ground arith))
  ]

  pub Filled-sent :
      {s : OutputStream A} {source : List A} {r : OutputStream A × List A}
      → (f : Filled s source r) → sent r.0 ≡ sent s ++ f.taken
  Filled-sent {s} f =
      ap₂ ◌++◌ f.kept f.stored
      ∙ sym (append_assoc s.written (items s.buffer_index s.buffer) f.taken)
