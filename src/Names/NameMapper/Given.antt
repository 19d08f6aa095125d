-- ===== src/Names/NameMapper/Given.antt =====
-- cpp/name_mapper.cpp: the names that a mapper gives.
use arrp.Common.{
  ℕ, ◌≤◌, ◌⊎◌, ◌≡◌, refl, subst, inl, inr, Bool, true, false, Bool-cases, Option-cases,
  if◌then◌else◌, List, [], ◌∷◌, ◌++◌, none, some, arith,
}
use arrp.Common.Partial.{some_inj}
use arrp.Common.Text.{Text, same_text, same_text_iff, to_string, to_string-AllDigits, AllDigits}
use arrp.Names.NameMapper.{
  NameMapper, no_names, find, is_legal, sanitize, add_name, map_name, map_names,
}

find-add_name :
    (original : Text) (m : NameMapper)
    → find original (add_name original m).1.name_map ≡ some (add_name original m).0
unfolding find add_name
find-add_name original m = rw ((same_text_iff original original).1 refl) refl

find-map_name :
    (original : Text) (m : NameMapper)
    → find original (map_name original m).1.name_map ≡ some (map_name original m).0
unfolding map_name
find-map_name original m = elim (Option-cases (find original m.name_map)) [
  | inl e ↦ rw e (find-add_name original m)
  | inr (mapped, e) ↦ rw e e
]

-- A name that is in the map stays there as it is.
find-add_name_other :
    (name other mapped : Text) (m : NameMapper)
    → find other m.name_map ≡ none
    → find name m.name_map ≡ some mapped
    → find name (add_name other m).1.name_map ≡ some mapped
unfolding find add_name
find-add_name_other name other mapped m missing found = elim (Bool-cases (same_text other name)) [
  | inl e ↦ cc ((same_text_iff other name).0 e)
  | inr e ↦ rw e found
]

find-kept :
    (name other mapped : Text) (m : NameMapper)
    → find name m.name_map ≡ some mapped
    → find name (map_name other m).1.name_map ≡ some mapped
unfolding map_name
find-kept name other mapped m found = elim (Option-cases (find other m.name_map)) [
  | inl e ↦ rw e (find-add_name_other name other mapped m e found)
  | inr (known, e) ↦ rw e found
]

find-kept_all :
    (name mapped : Text) (names : List Text) (m : NameMapper)
    → find name m.name_map ≡ some mapped
    → find name (map_names names m).1.name_map ≡ some mapped
unfolding map_names
find-kept_all name mapped [] m found = found
find-kept_all name mapped (other ∷ names) m found =
    find-kept_all name mapped names (map_name other m).1 (find-kept name other mapped m found)

map_name-found :
    (name mapped : Text) (m : NameMapper)
    → find name m.name_map ≡ some mapped
    → map_name name m ≡ (mapped, m)
unfolding map_name
map_name-found name mapped m found = rw found refl

-- A name is mapped to the same identifier whenever it comes again, whatever names come in between, and
-- then the mapper does not change.
pub map_name_again :
    (name : Text) (names : List Text) (m : NameMapper)
    → let (mapped, m') = map_name name m in
      let m'' = (map_names names m').1 in map_name name m'' ≡ (mapped, m'')
map_name_again name names m =
    map_name-found name (map_name name m).0 (map_names names (map_name name m).1).1
      (find-kept_all name (map_name name m).0 names (map_name name m).1 (find-map_name name m))

-- A letter, a digit or an underscore.
abbrev pub IsIdentifierCharacter : ℕ → Type 0
IsIdentifierCharacter c =
    (b'0' ≤ c) × (c ≤ b'9') ⊎ (b'A' ≤ c) × (c ≤ b'Z') ⊎ (b'a' ≤ c) × (c ≤ b'z') ⊎ (c ≡ b'_')

-- Each character can stand in an identifier of C++.
abbrev pub IsLegal : Text → Type 0
IsLegal [] = Unit
IsLegal (c ∷ cs) = IsIdentifierCharacter c × IsLegal cs

is_legal-IsIdentifierCharacter : (c : ℕ) → is_legal c ≡ true → IsIdentifierCharacter c
is_legal-IsIdentifierCharacter c h = ground arith

abbrev pub AreLegal : List Text → Type 0
AreLegal [] = Unit
AreLegal (x ∷ xs) = IsLegal x × AreLegal xs

sanitize-IsLegal : (text : Text) → IsLegal (sanitize text)
unfolding sanitize
sanitize-IsLegal [] = tt
sanitize-IsLegal (c ∷ cs) = (
  elim (Bool-cases (is_legal c)) [
    | inl e ↦ rw e (is_legal-IsIdentifierCharacter c e)
    | inr e ↦ rw e (inr (inr (inr refl)))
  ],
  sanitize-IsLegal cs,
)

digits-IsLegal : (text : Text) → AllDigits text → IsLegal text
digits-IsLegal [] h = tt
digits-IsLegal (c ∷ cs) h = (ground arith, digits-IsLegal cs h.1)

append-IsLegal : (s t : Text) → IsLegal s → IsLegal t → IsLegal (s ++ t)
append-IsLegal [] t h k = k
append-IsLegal (c ∷ cs) t h k = (h.0, append-IsLegal cs t h.1 k)

numbered-IsLegal :
    (test : Bool) (name : Text) (n : ℕ)
    → IsLegal name
    → IsLegal (if test then name ++ b'_' ∷ to_string n else name)
numbered-IsLegal true name n h =
    append-IsLegal name (b'_' ∷ to_string n) h
      (inr (inr (inr refl)), digits-IsLegal (to_string n) (to_string-AllDigits n))
numbered-IsLegal false name n h = h

add_name-IsLegal : (name : Text) (m : NameMapper) → IsLegal (add_name name m).0
unfolding add_name
add_name-IsLegal name m = numbered-IsLegal _ (sanitize name) _ (sanitize-IsLegal name)

-- Each entry of the map is legal.
abbrev MapIsLegal : List (Text × Text) → Type 0
MapIsLegal [] = Unit
MapIsLegal ((original, mapped) ∷ rest) = IsLegal mapped × MapIsLegal rest

find-IsLegal :
    (name mapped : Text) (entries : List (Text × Text))
    → MapIsLegal entries
    → find name entries ≡ some mapped
    → IsLegal mapped
unfolding find
find-IsLegal name mapped [] h e = cc
find-IsLegal name mapped ((original, known) ∷ rest) h e =
    elim (Bool-cases (same_text original name)) [
      | inl same ↦ subst IsLegal (some_inj (rw same at e)) h.0
      | inr other ↦ find-IsLegal name mapped rest h.1 (rw other at e)
    ]

extended :
    (name : Text) (m : NameMapper) → MapIsLegal m.name_map → MapIsLegal (add_name name m).1.name_map
unfolding add_name
extended name m h = (numbered-IsLegal _ (sanitize name) _ (sanitize-IsLegal name), h)

map_name-IsLegal :
    (name : Text) (m : NameMapper)
    → MapIsLegal m.name_map
    → IsLegal (map_name name m).0 × MapIsLegal (map_name name m).1.name_map
unfolding map_name
map_name-IsLegal name m h = elim (Option-cases (find name m.name_map)) [
  | inl e ↦ rw e (add_name-IsLegal name m, extended name m h)
  | inr (mapped, e) ↦ rw e (find-IsLegal name mapped m.name_map h e, h)
]

map_names-AreLegal :
    (names : List Text) (m : NameMapper) → MapIsLegal m.name_map → AreLegal (map_names names m).0
unfolding map_names
map_names-AreLegal [] m h = tt
map_names-AreLegal (name ∷ names) m h =
    let (legal, all) = map_name-IsLegal name m h in
    (legal, map_names-AreLegal names (map_name name m).1 all)

-- All characters of the names that a new mapper gives are letters, digits and underscores, whatever names
-- are asked for.
pub map_names-legal : (names : List Text) → AreLegal (map_names names no_names).0
map_names-legal names = map_names-AreLegal names no_names tt
