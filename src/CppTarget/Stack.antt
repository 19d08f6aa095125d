-- ===== src/CppTarget/Stack.antt =====
-- cpp/cpp_target.cpp: which buffers `buffer_analysis` puts on the stack. Sizes are natural numbers.
pub mod Limit
mod Tests
use arrp.Common.{ℕ, ◌+◌, ◌*◌, ltb, if◌then◌else◌, Bool, List, [], ◌∷◌, ◌++◌, Option, none, some}
use arrp.Common.Partial.{◌>>=◌}
use arrp.Primitive.{
  PrimitiveType, undefined, boolean, int8, uint8, int16, uint16, int32, uint32, int64, uint64,
  real32, real64, complex32, complex64, infinity,
}

-- `volume`.
abbrev product : List ℕ → ℕ
product [] = 1
product (e ∷ es) = e * product es

abbrev pub volume : List ℕ → ℕ
volume [] = 0
volume (e ∷ es) = product (e ∷ es)

-- `size_for`; `none` is the error.
unfoldable pub size_for : PrimitiveType → Option ℕ
size_for boolean = some 4
size_for int8 = some 1
size_for uint8 = some 1
size_for int16 = some 2
size_for uint16 = some 2
size_for int32 = some 4
size_for uint32 = some 4
size_for int64 = some 8
size_for uint64 = some 8
size_for real32 = some 32
size_for real64 = some 64
size_for complex32 = some 64
size_for complex64 = some 128
size_for undefined = none
size_for infinity = none

-- What the choice depends on, of an array and its buffer; `name` identifies them.
pub record Candidate : Type 0 where
  pub name : ℕ
  pub type : PrimitiveType
  pub dimension_size : List ℕ
  pub inter_period_dependency : Bool

-- The two lists of the first loop: the buffers in memory, and the others, in order.
unfoldable pub separate : List Candidate → List Candidate × List Candidate
separate [] = ([], [])
separate (c ∷ cs) =
    let (memory, stack) = separate cs in
    if c.inter_period_dependency then (c ∷ memory, stack) else (memory, c ∷ stack)

-- `std::sort` with `buffer_size_is_smaller`: buffers of one size can come in any order.
unfoldable pub insert : Candidate → List Candidate → List Candidate
insert c [] = c ∷ []
insert c (d ∷ ds) =
    let later = insert c ds in
    if ltb (volume d.dimension_size) (volume c.dimension_size) then d ∷ later else c ∷ d ∷ ds

unfoldable pub sort : List Candidate → List Candidate
unfolding insert
sort [] = []
sort (c ∷ cs) = insert c (sort cs)

abbrev pub mem_size : Candidate → Option ℕ
mem_size c = size_for c.type >>= λ elem_size. some (volume c.dimension_size * elem_size)

-- The second loop, with the stack that is taken so far: the buffers on the stack, and those that do not fit.
unfoldable pub allot : ℕ → List Candidate → Option (List Candidate × List Candidate)
allot stack_size [] = some ([], [])
allot stack_size (c ∷ cs) = do
  size ← mem_size c
  let fits = ltb (stack_size + size) 1024
  (stack, memory) ← allot (if fits then stack_size + size else stack_size) cs
  some (if fits then (c ∷ stack, memory) else (stack, c ∷ memory))

-- The buffers on the stack, and those in memory.
unfoldable pub place_buffers : List Candidate → Option (List Candidate × List Candidate)
place_buffers arrays =
    let (memory, stack) = separate arrays in allot 0 (sort stack) >>= λ r. some (r.0, memory ++ r.1)
