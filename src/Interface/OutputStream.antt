-- ===== src/Interface/OutputStream.antt =====
-- interface/raw/interface.h: `BufferedBinaryOutputStream`, which gathers the items of several transfers in
-- a buffer and writes whole buffers. The file behind it is the list of the items written so far.
pub mod Fill
pub mod Lossless
mod Tests
use arrp.Common.{
  ℕ, zero, ◌+◌, ltb, ◌==◌, if◌then◌else◌, List, [], ◌∷◌, ◌++◌, get_elem?, set, replicate,
}
use arrp.Common.Collect.{collect}

pub record OutputStream {ℓ} (A : Type ℓ) : Type ℓ where
  pub buffer : List A
  pub buffer_size : ℕ
  pub buffer_index : ℕ
  pub written : List A

module _ {ℓ} {A : Type ℓ} where
  -- The constructor; `zero_item` is the value of a fresh item.
  unfoldable pub open_stream : A → ℕ → OutputStream A
  open_stream zero_item size = record {
    buffer = replicate size zero_item;
    buffer_size = size;
    buffer_index = 0;
    written = [];
  }

  -- The first `n` items of the buffer.
  abbrev pub items : ℕ → List A → List A
  items n buffer = collect n (get_elem? buffer)

  -- `write`.
  unfoldable pub write : ℕ → OutputStream A → OutputStream A
  write n s = record s { written = s.written ++ items n s.buffer }

  -- A loop of `transfer`: items go to the buffer until it is full or the source is used up. The source that
  -- is left is returned.
  unfoldable pub fill : OutputStream A → List A → OutputStream A × List A
  fill s [] = (s, [])
  fill s (x ∷ xs) =
      let s' = record s {
        buffer = set s.buffer s.buffer_index x;
        buffer_index = s.buffer_index + 1;
      } in
      let rest = fill s' xs in if ltb s.buffer_index s.buffer_size then rest else (s, x ∷ xs)

  unfoldable pub flush_full : OutputStream A → OutputStream A
  unfolding write
  flush_full s =
      if s.buffer_index == s.buffer_size
      then write s.buffer_size (record s { buffer_index = 0 })
      else s

  -- What the second loop leaves of the source is dropped.
  unfoldable pub transfer : List A → OutputStream A → OutputStream A
  transfer source s = let (s', rest) = fill s source in (fill (flush_full s') rest).0

  -- The destructor.
  unfoldable pub close : OutputStream A → OutputStream A
  unfolding write
  close s = if ltb 0 s.buffer_index then write s.buffer_index s else s

  -- Several transfers, in order.
  unfoldable pub transfer_all : List (List A) → OutputStream A → OutputStream A
  transfer_all [] s = s
  transfer_all (block ∷ blocks) s = transfer_all blocks (transfer block s)
