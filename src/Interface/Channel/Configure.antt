-- ===== src/Interface/Channel/Configure.antt =====
-- interface/raw/interface.h: the stream that a channel is set up with.
use arrp.Common.{ℕ, ◌*◌, ◌≤◌, ◌≡◌, ◌⊎◌, inl, inr, Bool, List, arith, Bool-cases, [], ◌∷◌}
use arrp.Common.Int.{ℤ, pos, negsuc, pos_part, ◌≤ℤ◌}
use mathlib.Core.List.{flatten}
use arrp.Interface.OutputStream.{open_stream, transfer_all, close}
use arrp.Interface.OutputStream.Lossless.{AllShort, stream_lossless}
use arrp.Interface.Channel.{
  Text, ChannelConfig, ChannelType, Properties, ready, Source, buffered_output, buffered_input,
  setup, setup_type, setup_format, unset, value, pipe, file, standard_stream, file_stream,
}

setup_format-buffered :
    (source from : Source) (size block : ℤ) (max_buffer_size : ℤ) (p : Properties) (format : Text)
    → (setup_format source max_buffer_size p format ≡ ready from (buffered_output size) block)
      ⊎ (setup_format source max_buffer_size p format ≡ ready from (buffered_input size) block)
    → (size ≡ max_buffer_size) × (block ≡ size) × (pos (p.transfer_size * 2) ≤ℤ size)
unfolding setup_format
setup_format-buffered source from size block m p format h = ground arith

setup_type-buffered :
    (opens : Text → Bool) (m : ℤ) (p : Properties) (config : ChannelConfig) (type : ChannelType)
    (source : Source) (size block : ℤ)
    → (setup_type opens m p config type ≡ ready source (buffered_output size) block)
      ⊎ (setup_type opens m p config type ≡ ready source (buffered_input size) block)
    → (size ≡ m) × (block ≡ size) × (pos (p.transfer_size * 2) ≤ℤ size)
unfolding setup_type
setup_type-buffered opens m p config unset source size block h = ground arith
setup_type-buffered opens m p config value source size block h = ground arith
setup_type-buffered opens m p config pipe source size block h =
    setup_format-buffered standard_stream source size block m p config.config_format h
setup_type-buffered opens m p config file source size block h =
    elim (Bool-cases (opens config.config_value)) [
      | inl e ↦
          setup_format-buffered (file_stream config.config_value) source size block m p
            config.config_format (rw e at h)
      | inr e ↦ ground arith
    ]

-- A channel gets a buffered stream only with the size that was asked for, which is also the block size
-- that is reported, and only if two transfers fit in the buffer.
setup-buffered :
    (opens : Text → Bool) (max_buffer_size : ℤ) (p : Properties) (config : ChannelConfig)
    (source : Source) (size block : ℤ)
    → (setup opens max_buffer_size p config ≡ ready source (buffered_output size) block)
      ⊎ (setup opens max_buffer_size p config ≡ ready source (buffered_input size) block)
    → (size ≡ max_buffer_size) × (block ≡ size) × (pos (p.transfer_size * 2) ≤ℤ size)
unfolding setup
setup-buffered opens m p config source size block h =
    setup_type-buffered opens m p config config.config_type source size block h

AllShort-mono :
    {A : Type 0} (m n : ℕ) (blocks : List (List A)) → m ≤ n → AllShort m blocks → AllShort n blocks
AllShort-mono m n [] h k = tt
AllShort-mono m n (b ∷ bs) h k = (omega (arith, k.0), AllShort-mono m n bs h k.1)

-- An output channel that is set up with a buffered stream loses nothing of what the program transfers: if
-- each transfer has at most `transfer_size` items, the file holds them all, in order, once it is closed.
pub setup-lossless :
    (opens : Text → Bool) (max_buffer_size : ℤ) (p : Properties) (config : ChannelConfig)
    (source : Source) (size block : ℤ) {A : Type 0} (zero_item : A) (blocks : List (List A))
    → setup opens max_buffer_size p config ≡ ready source (buffered_output size) block
    → AllShort p.transfer_size blocks
    → (close (transfer_all blocks (open_stream zero_item (pos_part size)))).written ≡ flatten blocks
setup-lossless opens m p config source size block zero_item blocks h short =
    let (_, _, room) = setup-buffered opens m p config source size block (inl h) in
    stream_lossless zero_item (pos_part size) blocks (
      AllShort-mono p.transfer_size (pos_part size) blocks (half_fits p.transfer_size size room)
        short)
  where
    half_fits : (n : ℕ) (z : ℤ) → pos (n * 2) ≤ℤ z → n ≤ pos_part z
    half_fits n (pos k) h = omega arith
    half_fits n (negsuc k) h = omega arith
