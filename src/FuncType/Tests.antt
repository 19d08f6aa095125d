-- ===== src/FuncType/Tests.antt =====
-- The theorems on the types of functions and arrays, on examples.
use arrp.Common.{◌≡◌, ◌≢◌, ◌↔◌, true, [], ◌∷◌, none, some}
use arrp.Common.Int.{pos, negsuc}
use arrp.Primitive.{int8}
use arrp.FuncType.{ArraySizeVec, scalar_type, array_type}
use arrp.FuncType.Equality.{same}
use arrp.FuncType.Equality.Decides.{same_iff}

-- An infinite array of rows of three.
abbrev rows : ArraySizeVec
rows = negsuc 0 ∷ pos 3 ∷ []

abbrev column : ArraySizeVec
column = pos 1 ∷ pos 3 ∷ pos 4 ∷ []

abbrev both : ArraySizeVec
both = negsuc 0 ∷ pos 3 ∷ pos 4 ∷ []

same_iff_example :
    (same (array_type rows int8) (scalar_type int8) ≢ none)
    × ((same (array_type rows int8) (scalar_type int8) ≡ some true)
        ↔ (array_type rows int8 ≡ scalar_type int8))
same_iff_example = same_iff (array_type rows int8) (scalar_type int8) tt tt
