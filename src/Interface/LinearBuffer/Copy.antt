-- ===== src/Interface/LinearBuffer/Copy.antt =====
-- interface/linear_buffer.h: the copy of a linear buffer, and a fresh one.
use arrp.Common.{
  ℕ, ◌-◌, ◌≡◌, ◌↔◌, ◌⊎◌, inl, inr, refl, sym, ◌∙◌, true, if◌then◌else◌, List, [], length, arith,
  take, replicate, length-replicate, length-append, length-take, Bool-cases,
}
use arrp.Interface.LinearBuffer.{LinearBuffer, contents, copy, allocate, writable}
use arrp.Interface.LinearBuffer.Queue.{IsValid}

module _ {A : Type 0} where
  -- The copy of a valid buffer holds the same unread items. It is valid exactly where the buffer owns its
  -- memory or has no capacity: the copy of a buffer that was made of a pointer has lost its capacity.
  pub copy-IsValid_iff :
      (b : LinearBuffer A)
      → IsValid b
      → (contents (copy b) ≡ contents b)
        × (IsValid (copy b) ↔ ((b.owned ≡ true) ⊎ (b.capacity ≡ 0)))
  unfolding copy
  copy-IsValid_iff b valid = (refl, (forward, backward))
    where
      forward : IsValid (copy b) → (b.owned ≡ true) ⊎ (b.capacity ≡ 0)
      forward v = elim (Bool-cases b.owned) [
        | inl e ↦ inl e
        | inr e ↦ inr (valid.sized ∙ sym v.sized ∙ rw e)
      ]

      backward : (b.owned ≡ true) ⊎ (b.capacity ≡ 0) → IsValid (copy b)
      backward (inl e) = record {
        ordered = valid.ordered;
        bounded = rw e (omega arith);
        sized = rw e;
      }
      backward (inr e) = record {
        ordered = valid.ordered;
        bounded = ground arith;
        sized = ground arith;
      }

  -- A buffer that has been allocated is valid and empty, and all of the size that was asked for can be
  -- written, whatever the buffer held.
  allocate_lem :
      (zero_item : A) (n : ℕ) (b : LinearBuffer A)
      → IsValid (allocate zero_item n b)
        × (contents (allocate zero_item n b) ≡ [])
        × (writable (allocate zero_item n b) ≡ n)
  unfolding allocate
  allocate_lem zero_item n b = (
    record {
      ordered = omega arith;
      bounded = omega arith;
      sized = sym (
          length-append (take n stored) (replicate (n - length stored) zero_item)
          ∙ omega (arith, length-take n stored, length-replicate (n - length stored) zero_item));
    },
    refl,
    omega arith,
  )
    where
      stored : List A
      stored = if b.owned then b.memory else []
