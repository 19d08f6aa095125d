-- ===== src/Names/NameProvider/Tests.antt =====
-- The names that are given for three requests with one base.
use arrp.Common.{List, [], ◌∷◌, arith}
use arrp.Common.Text.{Text, codes}
use arrp.Names.NameProvider.{name_provider, new_names}
use arrp.Names.NameProvider.Unique.{AllDistinct, new_names-AllDistinct}

abbrev requests : List Text
requests = codes "f" ∷ codes "f.1" ∷ codes "g.f" ∷ codes "f" ∷ []

new_names-AllDistinct_example : AllDistinct (new_names requests (name_provider b'.'))
new_names-AllDistinct_example =
    new_names-AllDistinct requests (name_provider b'.') (λ d. omega (arith, d.0))
