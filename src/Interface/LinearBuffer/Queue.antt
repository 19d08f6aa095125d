-- ===== src/Interface/LinearBuffer/Queue.antt =====
-- interface/linear_buffer.h: the items between the two positions, as a queue.
use arrp.Common.{
  ℕ, zero, suc, ◌+◌, ◌-◌, ◌≤◌, ◌<◌, ◌≡◌, refl, sym, ap, ap₂, subst, ◌∙◌, List, [], ◌∷◌, ◌++◌, some,
  length, get_elem?, set, inl, inr, length-set, get_elem?-set_self, get_elem?-set_ne, arith, lt→ltb,
  Option-cases,
}
use arrp.Common.Collect.{collect, collect_ext, collect_last, push_front, get_elem?-ne-none}
use arrp.Interface.LinearBuffer.{
  LinearBuffer, readable, writable, contents, push, pop, shift, shift_loop,
}

-- The positions are in order and within the memory, and the capacity is that of the memory.
pub record IsValid {ℓ} {A : Type ℓ} (b : LinearBuffer A) : Type 0 where
  pub ordered : b.read_pos ≤ b.write_pos
  pub bounded : b.write_pos ≤ b.capacity
  pub sized : b.capacity ≡ length b.memory

module _ {A : Type 0} where
  -- The room that is left behind the unread items is within the memory.
  unread-append :
      (v : A) (read count : ℕ) (items : List A)
      → read + count < length items
      → collect (suc count) (λ j. get_elem? (set items (read + count) v) (read + j))
        ≡ collect count (λ j. get_elem? items (read + j)) ++ v ∷ []
  unread-append v read count items h =
      collect_last count (λ j. get_elem? (set items (read + count) v) (read + j))
      ∙ ap₂ ◌++◌
          (collect_ext count _ _
            (λ j l. get_elem?-set_ne items {i = read + count} {j = read + j} v (λ e. omega arith)))
          (ap (λ o. push_front o []) (get_elem?-set_self items (read + count) v h))

  -- Where there is room in a valid buffer, `push` writes within the memory, keeps the invariant, adds the
  -- item behind those that are unread, and takes up one place.
  pub push_lem :
      (v : A) (b : LinearBuffer A)
      → IsValid b
      → 0 < writable b
      → (b' : LinearBuffer A) × (push v b ≡ some b')
        × IsValid b'
        × (contents b' ≡ contents b ++ v ∷ [])
        × (writable b' + 1 ≡ writable b)
  unfolding push
  push_lem v b valid room =
      let at_end : b.read_pos + readable b ≡ b.write_pos = omega arith in
      let count : b.write_pos + 1 - b.read_pos ≡ suc (readable b) = omega arith in
      let inside : b.read_pos + readable b < length b.memory = omega arith in
      (
        record b { memory = set b.memory b.write_pos v; write_pos = b.write_pos + 1 },
        rw (lt→ltb b.write_pos (length b.memory) (omega arith)),
        record {
          ordered = omega arith;
          bounded = omega arith;
          sized = valid.sized ∙ sym (length-set b.memory b.write_pos v);
        },
        ap (λ k. collect k (λ j. get_elem? (set b.memory b.write_pos v) (b.read_pos + j))) count
            ∙ subst
                (λ w.
                  collect (suc (readable b)) (λ j. get_elem? (set b.memory w v) (b.read_pos + j))
                  ≡ contents b ++ v ∷ [])
                at_end (unread-append v b.read_pos (readable b) b.memory inside),
        omega arith,
      )

  -- Where an item is unread in a valid buffer, `pop` reads within the memory, keeps the invariant, and
  -- takes the first of the unread items.
  pop_lem :
      (b : LinearBuffer A)
      → IsValid b
      → 0 < readable b
      → (x : A) × (b' : LinearBuffer A) × (pop b ≡ some (x, b'))
        × IsValid b'
        × (contents b ≡ x ∷ contents b')
  unfolding pop
  pop_lem b valid unread = elim (Option-cases (get_elem? b.memory b.read_pos)) [
    | inl e ↦ absurd (get_elem?-ne-none b.memory b.read_pos (omega arith) e)
    | inr (x, e) ↦ (
      x,
      record b { read_pos = b.read_pos + 1 },
      rw e,
      record { ordered = omega arith; bounded = valid.bounded; sized = valid.sized },
      first x e,
    )
  ]
    where
      rest : (j : ℕ) → b.read_pos + suc j ≡ b.read_pos + 1 + j
      rest j = omega arith

      zeroth : b.read_pos + 0 ≡ b.read_pos
      zeroth = omega arith

      count : readable b ≡ suc (b.write_pos - (b.read_pos + 1))
      count = omega arith

      first :
          (x : A)
          → get_elem? b.memory b.read_pos ≡ some x
          → contents b
            ≡ x
              ∷ collect
                  (b.write_pos - (b.read_pos + 1))
                  (λ j. get_elem? b.memory (b.read_pos + 1 + j))
      first x e =
          ap (λ k. collect k (λ j. get_elem? b.memory (b.read_pos + j))) count
          ∙ ap₂ push_front (ap (get_elem? b.memory) zeroth ∙ e) (
              collect_ext (b.write_pos - (b.read_pos + 1)) _ _
                (λ j _. ap (get_elem? b.memory) (rest j)))

  -- What the loop of `shift` does to each index, from round `i` on: it runs within the memory, leaves the
  -- indices below `i` alone, and gives each of the next ones the item that stood `read` places further.
  shift_loop_lem :
      (n read i : ℕ) (items : List A)
      → read + i + n ≤ length items
      → (items' : List A) × (shift_loop n read i items ≡ some items')
        × (length items' ≡ length items)
        × ((j : ℕ) → j < i → get_elem? items' j ≡ get_elem? items j)
        × ((j : ℕ) → j < n → get_elem? items' (i + j) ≡ get_elem? items (read + (i + j)))
  unfolding shift_loop
  shift_loop_lem zero read i items h = (items, refl, refl, λ j l. refl, λ j l. absurd (omega arith))
  shift_loop_lem (suc n) read i items h = elim (Option-cases (get_elem? items (read + i))) [
    | inl e ↦ absurd (get_elem?-ne-none items (read + i) (omega arith) e)
    | inr (x, e) ↦
        step x e
          (shift_loop_lem n read (suc i) (set items i x) (rw (length-set items i x) (omega arith)))
  ]
    where
      step :
          (x : A)
          → get_elem? items (read + i) ≡ some x
          → (items' : List A) × (shift_loop n read (suc i) (set items i x) ≡ some items')
            × (length items' ≡ length (set items i x))
            × ((j : ℕ) → j < suc i → get_elem? items' j ≡ get_elem? (set items i x) j)
            × ((j : ℕ)
                → j < n
                → get_elem? items' (suc i + j) ≡ get_elem? (set items i x) (read + (suc i + j)))
          → (items' : List A) × (shift_loop (suc n) read i items ≡ some items')
            × (length items' ≡ length items)
            × ((j : ℕ) → j < i → get_elem? items' j ≡ get_elem? items j)
            × ((j : ℕ) → j < suc n → get_elem? items' (i + j) ≡ get_elem? items (read + (i + j)))
      step x e (items', run, len, below, inside) = (
        items',
        rw e run,
        len ∙ length-set items i x,
        λ j l. below j (omega arith) ∙ get_elem?-set_ne items {i = i} {j = j} x (λ q. omega arith),
        at,
      )
        where
          here : (k : ℕ) → k ≡ 0 → i + k ≡ i
          here k q = omega arith

          next : (k : ℕ) → i + suc k ≡ suc i + k
          next k = omega arith

          at : (j : ℕ) → j < suc n → get_elem? items' (i + j) ≡ get_elem? items (read + (i + j))
          at zero l =
              ap (get_elem? items') (here 0 (omega arith))
              ∙ below i (omega arith)
              ∙ get_elem?-set_self items i x (omega arith)
              ∙ sym e
              ∙ ap (λ k. get_elem? items (read + k)) (sym (here 0 (omega arith)))
          at (suc j) l =
              ap (get_elem? items') (next j)
              ∙ inside j (omega arith)
              ∙ get_elem?-set_ne items {i = i} {j = read + (suc i + j)} x (λ q. omega arith)
              ∙ ap (λ k. get_elem? items (read + k)) (sym (next j))

  -- `shift` of a valid buffer runs within the memory, keeps the invariant and the unread items in their
  -- order, and makes room: all of the capacity that they do not take up can be written.
  pub shift_lem :
      (b : LinearBuffer A)
      → IsValid b
      → (b' : LinearBuffer A) × (shift b ≡ some b')
        × IsValid b'
        × (contents b' ≡ contents b)
        × (readable b' + writable b' ≡ b.capacity)
  unfolding shift
  shift_lem b valid =
      let (items, run, len, _, inside) =
        shift_loop_lem (readable b) b.read_pos 0 b.memory (omega arith) in
      (
        record b { memory = items; read_pos = 0; write_pos = readable b },
        rw run,
        record { ordered = omega arith; bounded = omega arith; sized = valid.sized ∙ sym len },
        ap (λ k. collect k (λ j. get_elem? items (0 + j))) count
            ∙ collect_ext (readable b) _ _
                (λ j l. inside j l ∙ ap (λ k. get_elem? b.memory (b.read_pos + k)) (zero_add j)),
        omega arith,
      )
    where
      zero_add : (k : ℕ) → 0 + k ≡ k
      zero_add k = omega arith

      count : readable b - 0 ≡ readable b
      count = omega arith
