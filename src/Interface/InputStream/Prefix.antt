-- ===== src/Interface/InputStream/Prefix.antt =====
-- interface/raw/interface.h: what a transfer from a file comes to.
use arrp.Common.{
  ℕ, ◌+◌, ◌-◌, ◌≤◌, ◌<◌, ◌≡◌, ◌⊎◌, inl, inr, refl, sym, ap, ◌∙◌, false, Bool-cases, if◌then◌else◌,
  ltb, ltb→lt, List, [], ◌++◌, length, length-append, arith, min,
}
use mathlib.Core.List.{append_assoc, append-nil}
use arrp.Interface.InputStream.{
  InputStream, Transfer, done, failed, fetch, refill, give_rest, transfer, waiting,
}
use arrp.Interface.InputStream.Fetch.{fetch-Fetched}
use arrp.Interface.InputStream.Buffered.{
  IsValid, buffered, Split, Fetched-Split, refill_lem, refill-size, refill-index, length-buffered,
}

module _ {A : Type 0} where
  -- What a transfer of `n` items comes to. It gives the next `n` items, and leaves the others in their order;
  -- or it fails, and then buffer and file together hold too few items, or the buffer is too small for those
  -- that it lacks.
  abbrev pub Outcome : ℕ → InputStream A → Transfer A → Type 0
  Outcome n s (done given s') =
      IsValid s'
      × (given ++ waiting s' ≡ waiting s)
      × (length given ≡ n)
      × (s'.buffer_size ≡ s.buffer_size)
  Outcome n s (failed s') = length (buffered s) + min s.buffer_size (length s.file) < n

  give_rest-Outcome :
      (n : ℕ) (s t : InputStream A) (given : List A) (missing : ℕ)
      → IsValid t
      → given ++ waiting t ≡ waiting s
      → length given + missing ≡ n
      → length given ≡ length (buffered s)
      → t.buffer_size ≡ s.buffer_size
      → t.buffer_index ≡ 0
      → t.buffer_count ≡ min s.buffer_size (length s.file)
      → Outcome n s (give_rest given missing t)
  unfolding give_rest
  give_rest-Outcome n s t given missing v all number len size start count =
      elim (Bool-cases (ltb t.buffer_count missing)) [
        | inl short ↦ rw short (omega (arith, ltb→lt t.buffer_count missing short))
        | inr enough ↦ rw enough (
            finish enough (
              Fetched-Split missing t _ v
                (fetch-Fetched t.buffer t.buffer_count missing t.buffer_index v.ordered)))
      ]
    where
      finish :
          ltb t.buffer_count missing ≡ false
          → Split missing t (fetch t.buffer t.buffer_count missing t.buffer_index)
          → Outcome n s (
              let (more, _, stop) = fetch t.buffer t.buffer_count missing t.buffer_index in
              done (given ++ more) (record t { buffer_index = stop }))
      finish enough f =
          let r = fetch t.buffer t.buffer_count missing t.buffer_index in
          let rest = buffered (record t { buffer_index = r.2 }) in
          (
            f.valid,
            append_assoc given r.0 (rest ++ t.file)
                ∙ ap (λ ys. given ++ ys)
                    (sym (append_assoc r.0 rest t.file) ∙ ap (λ ys. ys ++ t.file) f.items)
                ∙ all,
            omega (
              arith,
              length-append given r.0,
              f.number,
              complete r rest f.stopped (ap length f.items ∙ length-buffered t v)
                  (length-append r.0 rest) f.number,
            ),
            size,
          )
        where
          at_least : missing ≤ t.buffer_count
          at_least = ground arith

          complete :
              (r : List A × ℕ × ℕ) (rest : List A)
              → (r.1 ≡ 0) ⊎ (rest ≡ [])
              → length (r.0 ++ rest) ≡ t.buffer_count - t.buffer_index
              → length (r.0 ++ rest) ≡ length r.0 + length rest
              → length r.0 + r.1 ≡ missing
              → r.1 ≡ 0
          complete r rest (inl e) _ _ _ = e
          complete r rest (inr e) p q m = omega (arith, ap length e, at_least, start)

  transfer-Outcome :
      (n : ℕ) (s : InputStream A)
      → IsValid s
      → (r : List A × ℕ × ℕ) → Split n s r
      → Outcome n s (
          if ltb 0 r.1
          then give_rest r.0 r.1 (refill (record s { buffer_index = r.2 }))
          else done r.0 (record s { buffer_index = r.2 }))
  transfer-Outcome n s v r f = elim (Bool-cases (ltb 0 r.1)) [
    | inl more ↦ rw more (again f.stopped (ltb→lt 0 r.1 more))
    | inr enough ↦ rw enough (
      f.valid,
      sym (append_assoc r.0 _ s.file) ∙ ap (λ ys. ys ++ s.file) f.items,
      omega (arith, f.number, none_missing enough),
      refl,
    )
  ]
    where
      none_missing : ltb 0 r.1 ≡ false → r.1 ≡ 0
      none_missing e = ground arith

      next : InputStream A
      next = record s { buffer_index = r.2 }

      again :
          (r.1 ≡ 0) ⊎ (buffered next ≡ []) → 0 < r.1 → Outcome n s (give_rest r.0 r.1 (refill next))
      again (inl e) l = absurd (omega arith)
      again (inr e) l =
          let (valid, file, count) = refill_lem next in
          let given : r.0 ≡ buffered s =
            sym (append-nil r.0) ∙ ap (λ ys. r.0 ++ ys) (sym e) ∙ f.items in
          give_rest-Outcome n s (refill next) r.0 r.1 valid
            (ap (λ ys. r.0 ++ ys) file ∙ ap (λ ys. ys ++ s.file) given) f.number (ap length given)
            (refill-size next) (refill-index next) count

  -- A transfer of `n` items from a valid stream gives the next `n` items that it holds, in order, and leaves
  -- the others. It fails only if buffer and file together hold too few items, or the file has to give more
  -- than fit in the buffer.
  transfer_lem : (n : ℕ) (s : InputStream A) → IsValid s → Outcome n s (transfer n s)
  unfolding transfer
  transfer_lem n s v =
      transfer-Outcome n s v (fetch s.buffer s.buffer_count n s.buffer_index)
        (Fetched-Split n s _ v (fetch-Fetched s.buffer s.buffer_count n s.buffer_index v.ordered))

  length-waiting : (s : InputStream A) → length (waiting s) ≡ length (buffered s) + length s.file
  length-waiting s = length-append (buffered s) s.file

  -- A transfer of no more items than the buffer has places, from a valid stream that holds as many, does
  -- not fail: it gives the next items of the stream, in order, and leaves a valid stream with the others.
  pub transfer_succeeds :
      (n : ℕ) (s : InputStream A)
      → IsValid s
      → n ≤ s.buffer_size
      → n ≤ length (waiting s)
      → (given : List A) × (s' : InputStream A) × (transfer n s ≡ done given s')
        × IsValid s'
        × (given ++ waiting s' ≡ waiting s)
        × (length given ≡ n)
        × (s'.buffer_size ≡ s.buffer_size)
  transfer_succeeds n s v fits held = go (transfer n s) refl (transfer_lem n s v)
    where
      go :
          (t : Transfer A)
          → transfer n s ≡ t
          → Outcome n s t
          → (given : List A) × (s' : InputStream A) × (transfer n s ≡ done given s')
            × IsValid s'
            × (given ++ waiting s' ≡ waiting s)
            × (length given ≡ n)
            × (s'.buffer_size ≡ s.buffer_size)
      go (done given s') e o = (given, s', e, o.0, o.1, o.2, o.3)
      go (failed s') e o = absurd (omega (arith, length-waiting s))
