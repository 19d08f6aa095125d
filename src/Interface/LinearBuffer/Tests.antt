-- ===== src/Interface/LinearBuffer/Tests.antt =====
-- The theorems on linear buffers, on a buffer of four items of which one is unread.
use arrp.Common.{ℕ, ◌+◌, ◌≡◌, ◌↔◌, ◌⊎◌, refl, true, false, [], ◌∷◌, ◌++◌, some, arith}
use arrp.Interface.LinearBuffer.{LinearBuffer, push, shift, contents, readable, writable, copy}
use arrp.Interface.LinearBuffer.Queue.{IsValid, push_lem, shift_lem}
use arrp.Interface.LinearBuffer.Copy.{copy-IsValid_iff}

abbrev one_unread : LinearBuffer ℕ
one_unread = record {
  memory = 5 ∷ 6 ∷ 7 ∷ 8 ∷ [];
  owned = false;
  capacity = 4;
  read_pos = 2;
  write_pos = 3;
}

one_unread-IsValid : IsValid one_unread
one_unread-IsValid = record { ordered = omega arith; bounded = omega arith; sized = refl }

push_lem_example :
    (b : LinearBuffer ℕ) × (push 9 one_unread ≡ some b)
    × IsValid b
    × (contents b ≡ contents one_unread ++ 9 ∷ [])
    × (writable b + 1 ≡ writable one_unread)
push_lem_example = push_lem 9 one_unread one_unread-IsValid (omega arith)

shift_lem_example :
    (b : LinearBuffer ℕ) × (shift one_unread ≡ some b)
    × IsValid b
    × (contents b ≡ contents one_unread)
    × (readable b + writable b ≡ 4)
shift_lem_example = shift_lem one_unread one_unread-IsValid

copy-IsValid_iff_example :
    (contents (copy one_unread) ≡ contents one_unread)
    × (IsValid (copy one_unread) ↔ ((false ≡ true) ⊎ (one_unread.capacity ≡ 0)))
copy-IsValid_iff_example = copy-IsValid_iff one_unread one_unread-IsValid
