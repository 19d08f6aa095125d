-- ===== src/Interface/InputStream/Tests.antt =====
-- The theorems on input streams, on a stream whose buffer has three places.
use arrp.Common.{ℕ, ◌≡◌, refl, length, List, [], ◌∷◌, ◌++◌, arith}
use arrp.Interface.InputStream.{InputStream, transfer, waiting, done}
use arrp.Interface.InputStream.Buffered.{IsValid}
use arrp.Interface.InputStream.Prefix.{transfer_succeeds}

abbrev one_left : InputStream ℕ
one_left = record {
  buffer = 1 ∷ 2 ∷ 3 ∷ [];
  buffer_size = 3;
  buffer_index = 2;
  buffer_count = 3;
  file = 4 ∷ 5 ∷ [];
}

one_left-IsValid : IsValid one_left
one_left-IsValid = record { counted = refl; ordered = omega arith }

transfer_succeeds_example :
    (given : List ℕ) × (s : InputStream ℕ) × (transfer 2 one_left ≡ done given s)
    × IsValid s
    × (given ++ waiting s ≡ waiting one_left)
    × (length given ≡ 2)
    × (s.buffer_size ≡ 3)
transfer_succeeds_example =
    transfer_succeeds 2 one_left one_left-IsValid (omega arith) (omega arith)
