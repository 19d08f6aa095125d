-- ===== src/Interface/CircularBuffer/Tests.antt =====
-- The theorems on rings, on a ring of three places whose items go round its end.
use arrp.Common.{ℕ, ◌+◌, ◌≡◌, [], ◌∷◌, ◌++◌, some, arith}
use arrp.Interface.CircularBuffer.{CircularBuffer, push, pop, contents, writable}
use arrp.Interface.CircularBuffer.Queue.{IsValid, contents-push, contents-pop}

abbrev two_stored : CircularBuffer ℕ
two_stored = record { read_pos = 2; count = 2; items = 5 ∷ 6 ∷ 7 ∷ [] }

two_stored-IsValid : IsValid two_stored
two_stored-IsValid = record { in_ring = omega arith; fits = omega arith }

contents-push_example :
    (b : CircularBuffer ℕ) × (push 9 two_stored ≡ some b)
    × IsValid b
    × (contents b ≡ contents two_stored ++ 9 ∷ [])
    × (writable b + 1 ≡ writable two_stored)
contents-push_example = contents-push 9 two_stored two_stored-IsValid (omega arith)

contents-pop_example :
    (x : ℕ) × (b : CircularBuffer ℕ) × (pop two_stored ≡ some (x, b))
    × IsValid b
    × (contents two_stored ≡ x ∷ contents b)
contents-pop_example = contents-pop two_stored two_stored-IsValid (omega arith)
