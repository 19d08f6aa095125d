-- ===== src/Names/NameProvider.antt =====
-- frontend/name_provider.hpp: `name_provider`, which gives each name that it is asked for a number of its own.
pub mod Unique
mod Tests
use arrp.Common.{ℕ, ◌+◌, ◌==◌, if◌then◌else◌, List, [], ◌∷◌, ◌++◌, Option, none, some}
use arrp.Common.Text.{Text, to_string}
use arrp.Names.{counted}

-- `m_name_counts` and the separator.
pub record NameProvider : Type 0 where
  pub separator : ℕ
  pub name_counts : Text → ℕ

-- The constructor.
abbrev pub name_provider : ℕ → NameProvider
name_provider separator = record { separator = separator; name_counts = λ base. 0 }

-- `rfind` and `substr`: what stands before the last separator, and behind it.
unfoldable pub split_at_last : ℕ → Text → Option (Text × Text)
split_at_last separator [] = none
split_at_last separator (c ∷ cs) = elim (split_at_last separator cs) [
  | some (before, behind) ↦ some (c ∷ before, behind)
  | none ↦ if c == separator then some ([], cs) else none
]

-- The name without the number that an earlier call has given it.
unfoldable pub base_name : ℕ → Text → Text
base_name separator name = elim (split_at_last separator name) [
  | some (before, behind) ↦ before
  | none ↦ name
]

unfoldable pub new_name : Text → NameProvider → Text × NameProvider
new_name name p =
    let base = base_name p.separator name in
    let name_counts = counted base p.name_counts in
    (base ++ p.separator ∷ to_string (name_counts base), record p { name_counts = name_counts })

-- The names that several calls give, in order.
unfoldable pub new_names : List Text → NameProvider → List Text
new_names [] p = []
new_names (name ∷ names) p = let (given, p') = new_name name p in given ∷ new_names names p'
