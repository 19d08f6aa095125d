-- ===== src/Interface/CircularBuffer/Queue.antt =====
-- interface/jack/target/buffer.h: the ring as a queue.
use arrp.Common.{
  ℕ, suc, ◌+◌, ◌-◌, ◌%◌, ◌≤◌, ◌<◌, ◌≡◌, ◌≢◌, ◌⊎◌, inl, inr, sym, ap, ap₂, ◌∙◌, [], ◌∷◌, ◌++◌,
  Option, some, length, get_elem?, set, length-set, get_elem?-set_self, get_elem?-set_ne, arith,
  lt→ltb, Option-cases,
}
use native.Mathlib.Nat.{mod-eq_of_lt, mod-eq-sub-mod, mod-add-mod, mod-lt}
use native.Mathlib.Decide.{dec_lt}
use arrp.Common.Collect.{collect, collect_ext, collect_last, push_front, get_elem?-ne-none}
use arrp.Interface.CircularBuffer.{
  CircularBuffer, write_pos, readable, writable, contents, push, pop,
}

-- The read position is a place of the ring, and no more items are stored than it has places.
pub record IsValid {ℓ} {A : Type ℓ} (b : CircularBuffer A) : Type 0 where
  pub in_ring : b.read_pos < length b.items
  pub fits : b.count ≤ length b.items

-- A step round the ring by less than its size, from a place of it.
wrap_cases :
    (size h j : ℕ)
    → h < size
    → j < size
    → ((h + j) % size ≡ h + j) × (h + j < size) ⊎ ((h + j) % size + size ≡ h + j)
wrap_cases size h j p q = elim (dec_lt (h + j) size) [
  | yes l ↦ inl (mod-eq_of_lt l, l)
  | no l ↦ inr (
      omega (
        arith,
        mod-eq-sub-mod {n = h + j} {m = size} (omega arith),
        mod-eq_of_lt {n = h + j - size} {m = size} (omega arith),
      ))
]

wrap-ne : (size h j k : ℕ) → h < size → k < size → j < k → (h + j) % size ≢ (h + k) % size
wrap-ne size h j k p q l e =
    omega (arith, wrap_cases size h j p (omega arith), wrap_cases size h k p q)

wrap_next : (size h j : ℕ) → ((h + 1) % size + j) % size ≡ (h + suc j) % size
wrap_next size h j = mod-add-mod (h + 1) size j ∙ ap (λ k. k % size) (omega arith)

module _ {A : Type 0} where
  -- Where there is room in a valid ring, `push` writes within the ring, keeps the invariant, adds the item
  -- behind those that are stored, and takes up one place.
  pub contents-push :
      (val : A) (b : CircularBuffer A)
      → IsValid b
      → 0 < writable b
      → (b' : CircularBuffer A) × (push val b ≡ some b')
        × IsValid b'
        × (contents b' ≡ contents b ++ val ∷ [])
        × (writable b' + 1 ≡ writable b)
  unfolding push
  contents-push val b valid room = (
    record b { items = set b.items (write_pos b) val; count = b.count + 1 },
    rw (lt→ltb (write_pos b) (length b.items) inside),
    record {
      in_ring = rw (length-set b.items (write_pos b) val) valid.in_ring;
      fits = rw (length-set b.items (write_pos b) val) (omega arith);
    },
    rw (length-set b.items (write_pos b) val, one_more)
        (collect_last b.count
            (λ j. get_elem? (set b.items (write_pos b) val) ((b.read_pos + j) % length b.items))
          ∙ ap₂ ◌++◌
              (collect_ext b.count _ _ (λ j l.
                get_elem?-set_ne b.items {i = write_pos b} {j = (b.read_pos + j) % length b.items}
                  val
                  (λ e.
                    wrap-ne (length b.items) b.read_pos j b.count valid.in_ring (omega arith) l
                      (sym e))))
              (ap (λ o. push_front o []) (get_elem?-set_self b.items (write_pos b) val inside))),
    rw (length-set b.items (write_pos b) val) (omega arith),
  )
    where
      one_more : b.count + 1 ≡ suc b.count
      one_more = omega arith

      inside : write_pos b < length b.items
      inside = mod-lt (b.read_pos + b.count) (omega arith)

  -- Where an item is stored in a valid ring, `pop` reads within the ring, keeps the invariant, and takes
  -- the oldest item.
  pub contents-pop :
      (b : CircularBuffer A)
      → IsValid b
      → 0 < readable b
      → (x : A) × (b' : CircularBuffer A) × (pop b ≡ some (x, b'))
        × IsValid b'
        × (contents b ≡ x ∷ contents b')
  unfolding pop
  contents-pop b valid stored = elim (Option-cases (get_elem? b.items b.read_pos)) [
    | inl e ↦ absurd (get_elem?-ne-none b.items b.read_pos valid.in_ring e)
    | inr (x, e) ↦ (
      x,
      record b { read_pos = (b.read_pos + 1) % length b.items; count = b.count - 1 },
      rw e,
      record { in_ring = mod-lt (b.read_pos + 1) (omega arith); fits = omega arith },
      first x e,
    )
  ]
    where
      more : b.count ≡ suc (b.count - 1)
      more = omega arith

      zeroth : (b.read_pos + 0) % length b.items ≡ b.read_pos
      zeroth = ap (λ k. k % length b.items) (omega arith) ∙ mod-eq_of_lt valid.in_ring

      place : ℕ → Option A
      place j = get_elem? b.items ((b.read_pos + j) % length b.items)

      first :
          (x : A)
          → get_elem? b.items b.read_pos ≡ some x
          → contents b
            ≡ x
              ∷ collect (b.count - 1) (λ j.
                get_elem? b.items (((b.read_pos + 1) % length b.items + j) % length b.items))
      first x e =
          ap (λ k. collect k place) more
          ∙ ap₂ push_front (ap (get_elem? b.items) zeroth ∙ e) (
              collect_ext (b.count - 1) _ _
                (λ j _. ap (get_elem? b.items) (sym (wrap_next (length b.items) b.read_pos j))))
