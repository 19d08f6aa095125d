-- ===== src/Names.antt =====
-- frontend/name_provider.hpp and cpp/name_mapper.cpp: the names of the identifiers that the compiler makes.
-- A map from texts to counts, in which a missing text counts as 0, is a function.
pub mod NameProvider
pub mod NameMapper
use arrp.Common.{ℕ, ◌+◌, ◌≡◌, ◌≤◌, if◌then◌else◌, refl, arith}
use arrp.Common.Text.{Text, same_text, same_text_iff}

-- `++count`, for the count of a base.
abbrev pub counted : Text → (Text → ℕ) → Text → ℕ
counted base counts other = if same_text base other then counts other + 1 else counts other

pub counted-le :
    (base : Text) (counts : Text → ℕ) (other : Text) → counts other ≤ counted base counts other
counted-le base counts other = ground arith

pub counted_self : (base : Text) (counts : Text → ℕ) → counted base counts base ≡ counts base + 1
counted_self base counts = rw ((same_text_iff base base).1 refl) refl
