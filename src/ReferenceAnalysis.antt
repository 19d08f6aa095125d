-- ===== src/ReferenceAnalysis.antt =====
-- frontend/reference_analysis.cpp with the visitor of common/func_model_visitor.hpp: the identifiers that are part of a
-- loop of references are marked as recursive.
pub mod Relation
pub mod Chain
pub mod Ordered
pub mod Processed
pub mod Total
mod Tests
use arrp.Common.{
  ℕ, zero, suc, Bool, true, false, ◌==◌, if◌then◌else◌, List, [], ◌∷◌, ◌++◌, Option, none, some,
  length, take,
}
use arrp.Common.Partial.{◌>>=◌}

-- The classes whose visit does nothing: constants, infinity, a reference of an array to itself, affine expressions,
-- external values and names of types; and the null pointer.
pub data Leaf : Type 0 where
  null_expr : Leaf
  int_const : Leaf
  real_const : Leaf
  complex_const : Leaf
  bool_const : Leaf
  infinity : Leaf
  array_self_ref : Leaf
  affine_expr : Leaf
  external : Leaf
  type_name_expr : Leaf

-- The classes whose visit visits their parts, in the order in which they stand here in the list of parts: of `case_expr`,
-- each constraint before its value; of `array`, the ranges of the variables and then the value; of an access, the
-- size and a call, the object first; of a type of functions, the result last.
pub data Compound : Type 0 where
  primitive : Compound
  operation : Compound
  case_expr : Compound
  array : Compound
  array_patterns : Compound
  array_app : Compound
  array_size : Compound
  func_app : Compound
  function : Compound
  array_type_expr : Compound
  func_type_expr : Compound

-- An expression of another class, for which `visit` throws, is left out. An identifier is a number. A reference has none where its variable is not an identifier.
mutual
  pub data Expr : Type 0 where
    leaf : Leaf → Expr
    reference : Option ℕ → Expr
    compound : Compound → Exprs → Expr
    scope_expr : List ℕ → Expr → Expr

  pub data Exprs : Type 0 where
    no_exprs : Exprs
    more_exprs : Expr → Exprs → Exprs

-- `m_visited_ids`, its top last; `m_done_ids`; and the identifiers whose `is_recursive` is set.
pub record State : Type 0 where
  pub visited : List ℕ
  pub done : List ℕ
  pub recursive : List ℕ

abbrev pub initial : State
initial = record { visited = []; done = []; recursive = [] }

abbrev pub contains : ℕ → List ℕ → Bool
contains i [] = false
contains i (x ∷ xs) = if x == i then true else contains i xs

-- What `std::find` leaves up to the end.
abbrev pub from_found : ℕ → List ℕ → List ℕ
from_found i [] = []
from_found i (x ∷ xs) = if x == i then x ∷ xs else from_found i xs

-- `insert` of a set.
abbrev pub insert : ℕ → List ℕ → List ℕ
insert i xs = if contains i xs then xs else (i ∷ xs)

abbrev pub push : ℕ → State → State
push start s = record s { visited = s.visited ++ (start ∷ []) }

-- The destructor of the stack's token: the stack is emptied down to the size that it had.
abbrev pub unwind : ℕ → State → State
unwind start_count s = record s { visited = take start_count s.visited }

abbrev pub mark : ℕ → State → State
mark start s = record s { recursive = from_found start s.visited ++ s.recursive }

abbrev pub finish : ℕ → State → State
finish start s = record s { done = insert start s.done }

-- `process` of a list, given that of an identifier.
unfoldable pub process_ids : (ℕ → State → Option State) → List ℕ → State → Option State
process_ids process_id [] s = some s
process_ids process_id (i ∷ is) s = process_id i s >>= process_ids process_id is

-- A variable that is not an identifier is not processed.
abbrev pub visit_ref : (ℕ → State → Option State) → Option ℕ → State → Option State
visit_ref process_id none s = some s
visit_ref process_id (some i) s = process_id i s

-- `visit`, given `process` of an identifier; its last clause is `visit_scope`.
unfoldable mutual
  pub visit : (ℕ → State → Option State) → Expr → State → Option State
  visit process_id (leaf l) s = some s
  visit process_id (reference var) s = visit_ref process_id var s
  visit process_id (compound kind parts) s = visit_parts process_id parts s
  visit process_id (scope_expr ids value) s =
      process_ids process_id ids s >>= visit process_id value

  pub visit_parts : (ℕ → State → Option State) → Exprs → State → Option State
  visit_parts process_id no_exprs s = some s
  visit_parts process_id (more_exprs e es) s = visit process_id e s >>= visit_parts process_id es

-- `process`, on fuel for the depth of calls; `none` is the fuel's end. `expr` gives the expression of each identifier.
unfoldable pub process : (ℕ → Expr) → ℕ → ℕ → State → Option State
process expr zero start s = none
process expr (suc fuel) start s = elim (contains start s.done) [
  | true ↦ some s
  | false ↦ elim (contains start s.visited) [
    | true ↦ some (finish start (mark start s))
    | false ↦ visit (process expr fuel) (expr start) (push start s) >>= λ s'.
        some (finish start (unwind (length s.visited) s'))
  ]
]
