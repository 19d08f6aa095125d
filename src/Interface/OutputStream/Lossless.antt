-- ===== src/Interface/OutputStream/Lossless.antt =====
-- interface/raw/interface.h: what a transfer and a whole stream write to the file.
use arrp.Common.{
  ℕ, ◌≤◌, ◌≡◌, inl, inr, refl, sym, ap, ap₂, ◌∙◌, Bool-cases, ltb, false, List, [], ◌∷◌, ◌++◌,
  length, arith, length-append, length-replicate,
}
use mathlib.Core.List.{append_assoc, append-nil, flatten}
use arrp.Interface.OutputStream.{
  OutputStream, open_stream, items, write, fill, flush_full, transfer, close, transfer_all,
}
use arrp.Interface.OutputStream.Fill.{
  IsValid, sent, Filled, fill-Filled, flush_full_lem, Filled-sent,
}

module _ {A : Type 0} where
  -- The second loop takes all that the first has left, if the source is no longer than the buffer.
  second_loop :
      (s : OutputStream A) (source : List A)
      → IsValid s
      → length source ≤ s.buffer_size
      → (f : Filled s source (fill s source))
      → (g : Filled
          (flush_full (fill s source).0)
          (fill s source).1
          (fill (flush_full (fill s source).0) (fill s source).1))
      → (fill (flush_full (fill s source).0) (fill s source).1).1 ≡ []
  second_loop s source v short f g =
      let (_, _, size, emptied) = flush_full_lem (fill s source).0 f.valid in
      let lengths = ap length f.split ∙ length-append f.taken (fill s source).1 in
      let rests = ap length g.split ∙ length-append g.taken _ in
      elim g.stopped [
        | inl e ↦ e
        | inr full ↦ elim f.stopped [
          | inl none_left ↦ nothing _ (omega (arith, ap length none_left))
          | inr filled ↦ nothing _ (omega (arith, emptied filled, f.size, g.size, g.count))
        ]
      ]
    where
      nothing : (xs : List A) → length xs ≤ 0 → xs ≡ []
      nothing [] h = refl
      nothing (x ∷ xs) h = absurd (omega arith)

  -- A transfer of no more items than the buffer has places, to a valid stream, loses none: the stream
  -- stays valid, with a buffer of the same size, and behind what was sent before stand the items of the
  -- source, in order.
  sent-transfer :
      (source : List A) (s : OutputStream A)
      → IsValid s
      → length source ≤ s.buffer_size
      → IsValid (transfer source s)
        × ((transfer source s).buffer_size ≡ s.buffer_size)
        × (sent (transfer source s) ≡ sent s ++ source)
  unfolding transfer
  sent-transfer source s v short =
      let f = fill-Filled source s v in
      let (valid, same, size, _) = flush_full_lem (fill s source).0 f.valid in
      let g = fill-Filled (fill s source).1 (flush_full (fill s source).0) valid in
      let done = second_loop s source v short f g in
      (
        g.valid,
        g.size ∙ size ∙ f.size,
        Filled-sent g
            ∙ ap₂ ◌++◌ (same ∙ Filled-sent f)
                (sym (g.split ∙ ap (λ ys. g.taken ++ ys) done ∙ append-nil g.taken))
            ∙ append_assoc (sent s) f.taken (fill s source).1
            ∙ ap (λ ys. sent s ++ ys) (sym f.split),
      )

  written-close : (s : OutputStream A) → (close s).written ≡ sent s
  unfolding close write
  written-close s = elim (Bool-cases (ltb 0 s.buffer_index)) [
    | inl e ↦ rw e
    | inr e ↦
        let none_left : s.buffer_index ≡ 0 = zero_of s.buffer_index e in
        rw e (sym (ap (λ k. s.written ++ items k s.buffer) none_left ∙ append-nil s.written))
  ]
    where
      zero_of : (k : ℕ) → ltb 0 k ≡ false → k ≡ 0
      zero_of k h = ground arith

  -- Each block has at most `n` items.
  abbrev pub AllShort : ℕ → List (List A) → Type 0
  AllShort n [] = Unit
  AllShort n (block ∷ blocks) = (length block ≤ n) × AllShort n blocks

  transfer_all_lem :
      (blocks : List (List A)) (s : OutputStream A)
      → IsValid s
      → AllShort s.buffer_size blocks
      → sent (transfer_all blocks s) ≡ sent s ++ flatten blocks
  unfolding transfer_all flatten
  transfer_all_lem [] s v short = sym (append-nil (sent s))
  transfer_all_lem (block ∷ blocks) s v short =
      let (valid, size, same) = sent-transfer block s v short.0 in
      transfer_all_lem blocks (transfer block s) valid (rw size short.1)
      ∙ ap (λ ys. ys ++ flatten blocks) same
      ∙ append_assoc (sent s) block (flatten blocks)

  open_stream-IsValid : (zero_item : A) (size : ℕ) → IsValid (open_stream zero_item size)
  unfolding open_stream
  open_stream-IsValid zero_item size = record {
    sized = length-replicate size zero_item;
    fits = omega arith;
  }

  -- A stream that is opened, given blocks of items that are no longer than its buffer, and closed has
  -- written exactly the items of the blocks, in order.
  pub stream_lossless :
      (zero_item : A) (size : ℕ) (blocks : List (List A))
      → AllShort size blocks
      → (close (transfer_all blocks (open_stream zero_item size))).written ≡ flatten blocks
  unfolding open_stream
  stream_lossless zero_item size blocks short =
      written-close (transfer_all blocks (open_stream zero_item size))
      ∙ transfer_all_lem blocks (open_stream zero_item size) (open_stream-IsValid zero_item size)
          short
