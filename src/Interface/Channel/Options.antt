-- ===== src/Interface/Channel/Options.antt =====
-- interface/raw/main.cpp: how the options of a channel are taken apart.
use arrp.Common.{
  ℕ, ◌≡◌, ◌≢◌, ◌≤◌, ◌<◌, ◌↔◌, ◌⊎◌, refl, [], ◌∷◌, ◌++◌, none, some, arith, if◌then◌else◌,
}
use arrp.Common.Text.{IsDigit, AllDigits}
use arrp.Interface.Channel.{
  Text, infer_channel_type, split_at_colon, parse_channel_options, is_value, value,
}

-- No byte is a colon.
abbrev pub NoColon : Text → Type 0
NoColon [] = Unit
NoColon (c ∷ cs) = (c ≢ b':') × NoColon cs

split_at_colon-none : (text : Text) → NoColon text → split_at_colon text ≡ (text, none)
unfolding split_at_colon
split_at_colon-none [] h = refl
split_at_colon-none (c ∷ cs) h = ground (arith, split_at_colon-none cs h.1)

split_at_colon-some :
    (before behind : Text)
    → NoColon before
    → split_at_colon (before ++ b':' ∷ behind) ≡ (before, some behind)
unfolding split_at_colon
split_at_colon-some [] behind h = refl
split_at_colon-some (c ∷ cs) behind h = ground (arith, split_at_colon-some cs behind h.1)

-- Options that are written as a value, a colon and a format that is not empty are read as that value and
-- that format; a format that is not written, for a value without a colon, is the default one, and
-- empty where the value stands for itself. The type is that of the value in both cases.
parse_channel_options_lem :
    (default_format written : Text) (first : ℕ) (rest : Text)
    → NoColon written
    → let both = parse_channel_options default_format (written ++ b':' ∷ first ∷ rest) in
      let alone = parse_channel_options default_format written in
      (both.config_value ≡ written)
      × (both.config_format ≡ first ∷ rest)
      × (both.config_type ≡ infer_channel_type written)
      × (alone.config_value ≡ written)
      × (alone.config_format
          ≡ (if is_value (infer_channel_type written) then [] else default_format))
      × (alone.config_type ≡ infer_channel_type written)
unfolding parse_channel_options
parse_channel_options_lem default_format written first rest h =
    rw (split_at_colon-some written (first ∷ rest) h, split_at_colon-none written h)
      (refl, ground arith, refl, refl, ground arith, refl)

-- A value that is a number, a minus sign before it or not, stands for itself.
pub infer_channel_type-number :
    (first : ℕ) (rest : Text)
    → (first ≡ b'-') ⊎ IsDigit first
    → AllDigits rest
    → infer_channel_type (first ∷ rest) ≡ value
unfolding infer_channel_type
infer_channel_type-number first [] h k = ground arith
infer_channel_type-number first (d ∷ rest) h k = ground arith

-- Of the texts of a single ASCII byte, those stand for themselves that are a minus sign or a byte from the
-- digit 0 up: the letters too, although they are no numbers.
infer_channel_type-single :
    (c : ℕ) → c < 128 → (infer_channel_type (c ∷ []) ≡ value) ↔ ((c ≡ b'-') ⊎ (48 ≤ c))
unfolding infer_channel_type
infer_channel_type-single c k = (λ h. ground arith, λ h. ground arith)
