-- ===== src/Interface/LinearBuffer.antt =====
-- interface/linear_buffer.h: a buffer that is written at one position and read at another, until its
-- unread part is shifted to the start. The code checks no bound: `none` is an access out of bounds.
pub mod Queue
pub mod Copy
mod Tests
use arrp.Common.{
  ℕ, zero, suc, ◌+◌, ◌-◌, Bool, true, false, if◌then◌else◌, ltb, List, [], ◌++◌, Option, none, some,
  length, get_elem?, set, take, replicate,
}
use arrp.Common.Collect.{collect}
use arrp.Common.Partial.{◌>>=◌}

-- `memory` is what `m_data` points to. It belongs to the buffer (`m_storage`) where `owned`, and to the
-- caller where the buffer was made of a pointer.
pub record LinearBuffer {ℓ} (A : Type ℓ) : Type ℓ where
  pub memory : List A
  pub owned : Bool
  pub capacity : ℕ
  pub read_pos : ℕ
  pub write_pos : ℕ

module _ {ℓ} {A : Type ℓ} where
  -- `Linear_Buffer(T * data, int size)`, for the items that `data` points to.
  unfoldable pub of_pointer : List A → ℕ → LinearBuffer A
  of_pointer items size = record {
    memory = items;
    owned = false;
    capacity = size;
    read_pos = 0;
    write_pos = 0;
  }

  -- `Linear_Buffer(int capacity)`; `zero_item` is the value of a fresh item.
  unfoldable pub of_capacity : A → ℕ → LinearBuffer A
  of_capacity zero_item n = record {
    memory = replicate n zero_item;
    owned = true;
    capacity = n;
    read_pos = 0;
    write_pos = 0;
  }

  -- The copy constructor and the assignment: `m_capacity` is the size of `m_storage`, which is empty
  -- where the memory belongs to the caller.
  unfoldable pub copy : LinearBuffer A → LinearBuffer A
  copy b = record b { capacity = if b.owned then length b.memory else 0 }

  -- `m_storage.resize(size)` keeps the items that fit, and fills up with fresh ones.
  unfoldable pub allocate : A → ℕ → LinearBuffer A → LinearBuffer A
  allocate zero_item n b =
      let stored = if b.owned then b.memory else [] in
      record {
        memory = take n stored ++ replicate (n - length stored) zero_item;
        owned = true;
        capacity = n;
        read_pos = 0;
        write_pos = 0;
      }

  abbrev pub readable : LinearBuffer A → ℕ
  readable b = b.write_pos - b.read_pos

  abbrev pub writable : LinearBuffer A → ℕ
  writable b = b.capacity - b.write_pos

  -- The rounds of the loop of `shift` that are left, from index `i`: `m_data[i] = m_data[m_readPos + i]`.
  unfoldable pub shift_loop : ℕ → ℕ → ℕ → List A → Option (List A)
  shift_loop zero read i items = some items
  shift_loop (suc n) read i items = do
    x ← get_elem? items (read + i)
    shift_loop n read (suc i) (set items i x)

  unfoldable pub shift : LinearBuffer A → Option (LinearBuffer A)
  shift b = do
    items ← shift_loop (readable b) b.read_pos 0 b.memory
    some (record b { memory = items; read_pos = 0; write_pos = readable b })

  unfoldable pub clear : LinearBuffer A → LinearBuffer A
  clear b = record b { read_pos = 0; write_pos = 0 }

  unfoldable pub push : A → LinearBuffer A → Option (LinearBuffer A)
  push v b =
      if ltb b.write_pos (length b.memory)
      then some (record b { memory = set b.memory b.write_pos v; write_pos = b.write_pos + 1 })
      else none

  unfoldable pub pop : LinearBuffer A → Option (A × LinearBuffer A)
  pop b = do x ← get_elem? b.memory b.read_pos; some (x, record b { read_pos = b.read_pos + 1 })

  -- The caller has written `count` items behind the write position, or read as many.
  unfoldable pub produce : ℕ → LinearBuffer A → LinearBuffer A
  produce count b = record b { write_pos = b.write_pos + count }

  unfoldable pub consume : ℕ → LinearBuffer A → LinearBuffer A
  consume count b = record b { read_pos = b.read_pos + count }

  -- The items that have been written and not yet read.
  abbrev pub contents : LinearBuffer A → List A
  contents b = collect (readable b) (λ j. get_elem? b.memory (b.read_pos + j))
