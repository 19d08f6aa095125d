-- ===== src/Interface/InputStream.antt =====
-- interface/raw/interface.h: `BufferedBinaryInputStream`, which reads whole buffers from a file, and gives
-- their items to the transfers. The file is the list of the items that it still holds.
pub mod Fetch
pub mod Buffered
pub mod Prefix
mod Tests
use arrp.Common.{
  ℕ, zero, suc, ◌+◌, ◌-◌, ltb, if◌then◌else◌, List, [], ◌++◌, get_elem?, length, take, drop,
}
use arrp.Common.Collect.{push_front, collect}

-- `buffer` holds the items that the last read has put at the start of `d_buffer`, and `buffer_count` is
-- their number.
pub record InputStream {ℓ} (A : Type ℓ) : Type ℓ where
  pub buffer : List A
  pub buffer_size : ℕ
  pub buffer_index : ℕ
  pub buffer_count : ℕ
  pub file : List A

-- What a transfer returns: the items at the destination, or the exception, and the stream after it.
pub data Transfer {ℓ} (A : Type ℓ) : Type ℓ where
  done : List A → InputStream A → Transfer A
  failed : InputStream A → Transfer A

module _ {ℓ} {A : Type ℓ} where
  unfoldable pub open_stream : List A → ℕ → InputStream A
  open_stream contents size = record {
    buffer = [];
    buffer_size = size;
    buffer_index = 0;
    buffer_count = 0;
    file = contents;
  }

  -- A loop of `transfer`, with `n` items still to give: the items given, how many are missing, and the
  -- index where it stopped.
  unfoldable pub fetch : List A → ℕ → ℕ → ℕ → List A × ℕ × ℕ
  fetch buffer count zero index = ([], 0, index)
  fetch buffer count (suc n) index =
      let (given, missing, stop) = fetch buffer count n (index + 1) in
      if ltb index count
      then (push_front (get_elem? buffer index) given, missing, stop)
      else ([], suc n, index)

  -- `read` and `gcount`: a buffer of items, or as many as the file still holds.
  unfoldable pub refill : InputStream A → InputStream A
  refill s = record s {
    buffer = take s.buffer_size s.file;
    buffer_index = 0;
    buffer_count = length (take s.buffer_size s.file);
    file = drop s.buffer_size s.file;
  }

  -- The second half of `transfer`, with the items given so far and the number of those that are missing.
  unfoldable pub give_rest : List A → ℕ → InputStream A → Transfer A
  give_rest given missing s =
      if ltb s.buffer_count missing
      then failed s
      else (let (more, _, stop) = fetch s.buffer s.buffer_count missing s.buffer_index in
          done (given ++ more) (record s { buffer_index = stop }))

  unfoldable pub transfer : ℕ → InputStream A → Transfer A
  transfer count s =
      let (given, missing, stop) = fetch s.buffer s.buffer_count count s.buffer_index in
      let s' = record s { buffer_index = stop } in
      if ltb 0 missing then give_rest given missing (refill s') else done given s'

  -- The items that are still to be transferred.
  abbrev pub waiting : InputStream A → List A
  waiting s =
      collect (s.buffer_count - s.buffer_index) (λ j. get_elem? s.buffer (s.buffer_index + j))
      ++ s.file
