-- ===== src/Interface/Channel/Tests.antt =====
-- The theorems on channels, on examples.
use arrp.Common.{ℕ, ◌≡◌, inl, refl, true, false, Bool, List, [], ◌∷◌, arith}
use arrp.Common.Int.{pos}
use mathlib.Core.List.{flatten}
use arrp.Interface.OutputStream.{open_stream, transfer_all, close}
use arrp.Interface.Channel.{
  Text, codes, ChannelConfig, Properties, file_stream, file, value, setup, setup_type, setup_format,
  same_text, infer_channel_type,
}
use arrp.Interface.Channel.Options.{infer_channel_type-number}
use arrp.Interface.Channel.Configure.{setup-lossless}

-- A channel to a file that can be opened, with raw data, for transfers of two items.
abbrev all_open : Text → Bool
all_open path = true

abbrev two_items : Properties
two_items = record { is_input = false; transfer_size = 2 }

abbrev raw_file : ChannelConfig
raw_file = record { config_value = codes "out"; config_type = file; config_format = codes "raw" }

abbrev three_blocks : List (List ℕ)
three_blocks = (1 ∷ 2 ∷ []) ∷ (3 ∷ []) ∷ (4 ∷ 5 ∷ []) ∷ []

setup-lossless_example :
    (close (transfer_all three_blocks (open_stream 0 4))).written ≡ flatten three_blocks
unfolding setup setup_type setup_format same_text
setup-lossless_example =
    setup-lossless all_open (pos 4) two_items raw_file (file_stream (codes "out")) (pos 4) (pos 4) 0
      three_blocks refl (omega arith, (omega arith, (omega arith, tt)))

infer_channel_type-number_example : infer_channel_type (b'-' ∷ b'4' ∷ b'2' ∷ []) ≡ value
infer_channel_type-number_example =
    infer_channel_type-number b'-' (b'4' ∷ b'2' ∷ []) (inl refl)
      ((omega arith, omega arith), ((omega arith, omega arith), tt))

abbrev letter_a : ℕ
letter_a = b'a'
