-- ===== src/Interface/Channel.antt =====
-- interface/raw/interface.h and interface/raw/main.cpp: how the options of a channel are read, and which
-- stream a channel is set up with. `char` is signed.
pub mod Options
pub mod Configure
mod Tests
pub use arrp.Common.Text.{Text, codes}
unfoldable pub use arrp.Common.Text.{same_text}
use arrp.Common.{
  ℕ, ◌*◌, leb, ltb, ◌==◌, ◌&&◌, ◌||◌, if◌then◌else◌, Bool, true, false, [], ◌∷◌, Option, none, some,
}
use arrp.Common.Int.{ℤ, pos, ltb_ℤ}

-- `ChannelConfig::type`; `unset` is the empty string.
pub data ChannelType : Type 0 where
  unset value pipe file : ChannelType

pub record ChannelConfig : Type 0 where
  pub config_value : Text
  pub config_type : ChannelType
  pub config_format : Text

-- `c >= 48` and `c <= 57` for a byte in a signed `char`.
abbrev from_digit_0 : ℕ → Bool
from_digit_0 c = leb 48 c && ltb c 128

abbrev to_digit_9 : ℕ → Bool
to_digit_9 c = leb c 57 || leb 128 c

-- `value[1]`; behind the last byte of a string stands a zero.
abbrev second : Text → ℕ
second (c ∷ d ∷ rest) = d
second _ = 0

unfoldable pub infer_channel_type : Text → ChannelType
unfolding same_text
infer_channel_type [] = unset
infer_channel_type (c ∷ rest) =
    if c == b'-' || (from_digit_0 c && to_digit_9 (second (c ∷ rest)))
    then value
    else if same_text (c ∷ rest) (codes "pipe")
    then pipe
    else file

-- `find(':')` and the two `substr`: the text before the first colon, and the text behind it.
unfoldable pub split_at_colon : Text → Text × Option Text
split_at_colon [] = ([], none)
split_at_colon (c ∷ rest) =
    let (before, behind) = split_at_colon rest in
    if c == b':' then ([], some rest) else (c ∷ before, behind)

abbrev pub is_value : ChannelType → Bool
is_value value = true
is_value _ = false

abbrev is_empty : Text → Bool
is_empty [] = true
is_empty _ = false

-- `config.format` of a default `ChannelConfig` is empty.
abbrev format_of : Option Text → Text
format_of none = []
format_of (some format) = format

unfoldable pub parse_channel_options : Text → Text → ChannelConfig
unfolding split_at_colon
parse_channel_options default_format text =
    let (config_value, behind) = split_at_colon text in
    let type = infer_channel_type config_value in
    let format = format_of behind in
    record {
      config_value = config_value;
      config_type = type;
      config_format =
          if (if is_value type then false else true) && is_empty format
          then default_format
          else format;
    }

pub record Properties : Type 0 where
  pub is_input : Bool
  pub transfer_size : ℕ

-- The stream behind a channel: a text in memory, the standard input or output, or a file.
pub data Source : Type 0 where
  text_stream : Text → Source
  standard_stream : Source
  file_stream : Text → Source

pub data Channel : Type 0 where
  text_input text_output binary_input binary_output : Channel
  buffered_input buffered_output : ℤ → Channel

pub data SetupError : Type 0 where
  invalid_output_type invalid_type failed_to_open invalid_format : SetupError

-- A channel that is set up, with the block size that is reported; or the exception.
pub data SetupResult : Type 0 where
  ready : Source → Channel → ℤ → SetupResult
  refused : SetupError → SetupResult

-- The second half of `setup`, for an open stream.
unfoldable pub setup_format : Source → ℤ → Properties → Text → SetupResult
setup_format source max_buffer_size p format =
    let block_size = pos p.transfer_size in
    let should_buffer = if ltb_ℤ max_buffer_size (pos (p.transfer_size * 2)) then false else true in
    if same_text format (codes "raw")
    then (if should_buffer
        then ready source
            (if p.is_input then buffered_input max_buffer_size else buffered_output max_buffer_size)
            max_buffer_size
        else ready source (if p.is_input then binary_input else binary_output) block_size)
    else if same_text format (codes "text")
    then ready source (if p.is_input then text_input else text_output) block_size
    else refused invalid_format

-- `setup`, by the type of the channel. Whether a file can be opened is the environment's to say: `opens`.
unfoldable pub setup_type :
    (Text → Bool) → ℤ → Properties → ChannelConfig → ChannelType → SetupResult
unfolding setup_format
setup_type opens max_buffer_size p config value =
    if p.is_input
    then ready (text_stream config.config_value) text_input (pos p.transfer_size)
    else refused invalid_output_type
setup_type opens max_buffer_size p config pipe =
    setup_format standard_stream max_buffer_size p config.config_format
setup_type opens max_buffer_size p config file =
    if opens config.config_value
    then setup_format (file_stream config.config_value) max_buffer_size p config.config_format
    else refused failed_to_open
setup_type opens max_buffer_size p config unset = refused invalid_type

unfoldable pub setup : (Text → Bool) → ℤ → Properties → ChannelConfig → SetupResult
unfolding setup_type
setup opens max_buffer_size p config = setup_type opens max_buffer_size p config config.config_type
