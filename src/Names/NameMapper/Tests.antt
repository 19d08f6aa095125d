-- ===== src/Names/NameMapper/Tests.antt =====
-- The identifiers that are made for three names of a program, two of which differ in an illegal character.
use arrp.Common.{◌≡◌, List, [], ◌∷◌}
use arrp.Common.Text.{Text, codes}
use arrp.Names.NameMapper.{no_names, map_name, map_names}
use arrp.Names.NameMapper.Given.{AreLegal, map_name_again, map_names-legal}

abbrev some_names : List Text
some_names = codes "a.b" ∷ codes "a+b" ∷ codes "a.b" ∷ []

map_name_again_example :
    let (mapped, m') = map_name (codes "a.b") no_names in
    let m'' = (map_names some_names m').1 in map_name (codes "a.b") m'' ≡ (mapped, m'')
map_name_again_example = map_name_again (codes "a.b") some_names no_names

map_names-legal_example : AreLegal (map_names some_names no_names).0
map_names-legal_example = map_names-legal some_names
