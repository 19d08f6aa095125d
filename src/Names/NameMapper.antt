-- ===== src/Names/NameMapper.antt =====
-- cpp/name_mapper.cpp: `name_mapper`, which makes identifiers of C++ from the names of a program. Letters and
-- digits are those of the classic locale.
pub mod Given
mod Tests
use arrp.Common.{
  ℕ, ◌+◌, leb, ltb, ◌==◌, ◌&&◌, ◌||◌, if◌then◌else◌, Bool, List, [], ◌∷◌, ◌++◌, Option, none, some,
}
use arrp.Common.Text.{Text, same_text, to_string}
use arrp.Names.{counted}

pub record NameMapper : Type 0 where
  pub name_map : List (Text × Text)
  pub name_counter : Text → ℕ

abbrev pub no_names : NameMapper
no_names = record { name_map = []; name_counter = λ name. 0 }

-- `m_name_map.find`.
unfoldable pub find : Text → List (Text × Text) → Option Text
find name [] = none
find name ((original, mapped) ∷ rest) =
    let later = find name rest in if same_text original name then some mapped else later

-- `isdigit`, `isalpha`, or an underscore.
abbrev pub is_legal : ℕ → Bool
is_legal c = leb 48 c && leb c 57 || (leb 65 c && leb c 90 || leb 97 c && leb c 122) || c == b'_'

-- The loop over the characters.
unfoldable pub sanitize : Text → Text
sanitize [] = []
sanitize (c ∷ cs) = (if is_legal c then c else b'_') ∷ sanitize cs

-- A name that is not in the map yet.
unfoldable pub add_name : Text → NameMapper → Text × NameMapper
add_name original m =
    let name = sanitize original in
    let name_counter = counted name m.name_counter in
    let count = name_counter name in
    let mapped = if ltb 1 count then name ++ b'_' ∷ to_string count else name in
    (mapped, record { name_map = (original, mapped) ∷ m.name_map; name_counter = name_counter })

-- The name that is found, or a new one.
abbrev pub found_or_added : Option Text → Text → NameMapper → Text × NameMapper
found_or_added (some mapped) original m = (mapped, m)
found_or_added none original m = add_name original m

-- `operator()`.
unfoldable pub map_name : Text → NameMapper → Text × NameMapper
map_name original m = found_or_added (find original m.name_map) original m

-- The mapped names of a sequence of calls, and the mapper behind them.
unfoldable pub map_names : List Text → NameMapper → List Text × NameMapper
map_names [] m = ([], m)
map_names (name ∷ names) m =
    let (mapped, m') = map_name name m in
    let (rest, m'') = map_names names m' in (mapped ∷ rest, m'')
