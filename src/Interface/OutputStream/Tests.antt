-- ===== src/Interface/OutputStream/Tests.antt =====
-- The theorems on output streams, on a stream whose buffer has two places.
use arrp.Common.{ℕ, ◌≡◌, refl, List, [], ◌∷◌, arith}
use mathlib.Core.List.{flatten}
use arrp.Interface.OutputStream.{OutputStream, open_stream, transfer_all, close}
use arrp.Interface.OutputStream.Fill.{IsValid}
use arrp.Interface.OutputStream.Lossless.{stream_lossless}

abbrev one_waiting : OutputStream ℕ
one_waiting = record { buffer = 5 ∷ 0 ∷ []; buffer_size = 2; buffer_index = 1; written = 4 ∷ [] }

one_waiting-IsValid : IsValid one_waiting
one_waiting-IsValid = record { sized = refl; fits = omega arith }

abbrev some_blocks : List (List ℕ)
some_blocks = (1 ∷ 2 ∷ []) ∷ (3 ∷ []) ∷ (4 ∷ 5 ∷ []) ∷ []

stream_lossless_example :
    (close (transfer_all some_blocks (open_stream 0 2))).written ≡ flatten some_blocks
stream_lossless_example =
    stream_lossless 0 2 some_blocks (omega arith, (omega arith, (omega arith, tt)))
