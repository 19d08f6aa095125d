-- ===== src/Interface/CircularBuffer.antt =====
-- interface/jack/target/buffer.h: the ring of the Jack client. The code checks neither room nor items;
-- `none` is an access out of bounds, or the remainder by the size of an empty ring.
pub mod Queue
mod Tests
use arrp.Common.{
  ℕ, ◌+◌, ◌-◌, ◌%◌, if◌then◌else◌, ltb, List, Option, none, some, length, get_elem?, set, replicate,
}
use arrp.Common.Collect.{collect}
use arrp.Common.Partial.{◌>>=◌}

pub record CircularBuffer {ℓ} (A : Type ℓ) : Type ℓ where
  pub read_pos : ℕ
  pub count : ℕ
  pub items : List A

module _ {ℓ} {A : Type ℓ} where
  -- The constructor; `zero_item` is the value of a fresh item.
  unfoldable pub of_size : A → ℕ → CircularBuffer A
  of_size zero_item n = record { read_pos = 0; count = 0; items = replicate n zero_item }

  abbrev pub write_pos : CircularBuffer A → ℕ
  write_pos b = (b.read_pos + b.count) % length b.items

  abbrev pub readable : CircularBuffer A → ℕ
  readable b = b.count

  abbrev pub writable : CircularBuffer A → ℕ
  writable b = length b.items - b.count

  unfoldable pub push : A → CircularBuffer A → Option (CircularBuffer A)
  push val b =
      if ltb (write_pos b) (length b.items)
      then some (record b { items = set b.items (write_pos b) val; count = b.count + 1 })
      else none

  unfoldable pub pop : CircularBuffer A → Option (A × CircularBuffer A)
  pop b = do
    x ← get_elem? b.items b.read_pos
    some (x, record b { read_pos = (b.read_pos + 1) % length b.items; count = b.count - 1 })

  -- The items that have been pushed and not yet popped.
  abbrev pub contents : CircularBuffer A → List A
  contents b = collect b.count (λ j. get_elem? b.items ((b.read_pos + j) % length b.items))
