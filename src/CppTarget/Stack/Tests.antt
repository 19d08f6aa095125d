-- ===== src/CppTarget/Stack/Tests.antt =====
-- The limit of the stack, for a small buffer, a large one, and one that lives from period to period.
use arrp.Common.{◌<◌, refl, true, false, [], ◌∷◌}
use arrp.Primitive.{int32, real64}
use arrp.CppTarget.Stack.{Candidate, size_for, separate, insert, sort, allot, place_buffers}
use arrp.CppTarget.Stack.Limit.{bytes, weight, total, NoneFits, place_buffers_lem}

abbrev small : Candidate
small = record { name = 0; type = int32; dimension_size = 4 ∷ []; inter_period_dependency = false }

abbrev large : Candidate
large = record {
  name = 1;
  type = real64;
  dimension_size = 4 ∷ 4 ∷ [];
  inter_period_dependency = false;
}

abbrev lasting : Candidate
lasting = record { name = 2; type = int32; dimension_size = 2 ∷ []; inter_period_dependency = true }

place_buffers_lem_example :
    (total bytes (small ∷ []) < 1024)
    × (total weight (small ∷ []) < 1024)
    × NoneFits (total weight (small ∷ [])) (lasting ∷ large ∷ [])
unfolding place_buffers separate insert sort allot size_for
place_buffers_lem_example =
    place_buffers_lem (large ∷ lasting ∷ small ∷ []) (small ∷ []) (lasting ∷ large ∷ []) refl
