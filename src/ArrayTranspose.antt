-- ===== src/ArrayTranspose.antt =====
-- frontend/array_transpose.cpp: the infinite dimension of each array is moved to the front.
pub mod Front
pub mod Reorder
pub mod Access
mod Tests
use arrp.Common.{
  ℕ, zero, suc, leb, ltb, Bool, true, false, if◌then◌else◌, List, [], ◌∷◌, ◌++◌, length, Option,
  none, some,
}
use arrp.Common.Int.{ℤ, pos, ltb_ℤ}
use arrp.Primitive.{PrimitiveType}
use arrp.FuncType.{FuncType, array_type, ArraySizeVec}

-- What is thrown; `assertion` is an assertion that fails, or a read out of bounds.
pub data TransposeError : Type 0 where
  two_streaming implicit_dimension unexpected_expression implicit_argument assertion :
      TransposeError

pub data Transposed {ℓ} (A : Type ℓ) : Type ℓ where
  ok : A → Transposed A
  failed : TransposeError → Transposed A

infixl 1 ◌>>=◌
abbrev pub ◌>>=◌ {ℓ κ} :
    {X : Type ℓ} {Y : Type κ} → Transposed X → (X → Transposed Y) → Transposed Y
failed e >>= k = failed e
ok x >>= k = k x

-- One round of the loop of `transpose_order`, for dimension `i` of size `n`.
unfoldable pub order_dimension : Bool × List ℕ → ℕ → ℤ → Transposed (Bool × List ℕ)
order_dimension (streaming, order) i n =
    if ltb_ℤ n (pos 0)
    then (if streaming then failed two_streaming else ok (true, i ∷ order))
    else ok (streaming, order ++ i ∷ [])

unfoldable pub order_dimensions : Bool × List ℕ → ℕ → ArraySizeVec → Transposed (Bool × List ℕ)
order_dimensions s i [] = ok s
order_dimensions s i (n ∷ size) = order_dimension s i n >>= λ s'. order_dimensions s' (suc i) size

-- Whether there is an infinite dimension, and the dimensions in their new order.
unfoldable pub transpose_order : ArraySizeVec → Transposed (Bool × List ℕ)
transpose_order size = order_dimensions (false, []) 0 size

module _ {ℓ} {A : Type ℓ} where
  -- xs[i].
  abbrev pub pick : TransposeError → List A → ℕ → Transposed A
  pick e [] i = failed e
  pick e (x ∷ xs) zero = ok x
  pick e (x ∷ xs) (suc i) = pick e xs i

  -- The loops that put variables and arguments in order, for a number of them.
  abbrev pub reorder_loop : TransposeError → List A → List ℕ → ℕ → Transposed (List A)
  reorder_loop e xs order zero = ok []
  reorder_loop e xs [] (suc k) = failed assertion
  reorder_loop e xs (i ∷ order) (suc k) =
      pick e xs i >>= λ x. reorder_loop e xs order k >>= λ rest. ok (x ∷ rest)

  -- An order of fewer dimensions fails the assertion.
  unfoldable pub reorder : TransposeError → List ℕ → List A → Transposed (List A)
  reorder e order xs =
      if leb (length xs) (length order)
      then reorder_loop e xs order (length xs)
      else failed assertion

-- `ordered_size`: the dimensions of the order, each of them one of the type.
unfoldable pub ordered_size : List ℕ → ArraySizeVec → Transposed ArraySizeVec
ordered_size order size = reorder_loop assertion size order (length order)

-- The expression of an identifier, as far as it matters: an array with its variables, or an external.
pub data IdExpr : Type 0 where
  array : List ℕ → IdExpr
  external other_expr : IdExpr

pub record Identifier : Type 0 where
  pub expr : IdExpr
  pub type : FuncType

unfoldable pub ordered_expr : List ℕ → IdExpr → Transposed IdExpr
ordered_expr order (array vars) =
    reorder implicit_dimension order vars >>= λ ordered_vars. ok (array ordered_vars)
ordered_expr order external = ok external
ordered_expr order other_expr = failed unexpected_expression

-- The identifier, and the order that is entered in `m_transpositions`.
unfoldable pub apply_order :
    IdExpr
    → ArraySizeVec
    → PrimitiveType
    → Bool × List ℕ
    → Transposed (Identifier × Option (List ℕ))
apply_order e size elem (false, order) = ok (record { expr = e; type = array_type size elem }, none)
apply_order e size elem (true, order) = ordered_expr order e >>= λ e'.
    ordered_size order size >>= λ size'.
    ok (record { expr = e'; type = array_type size' elem }, some order)

unfoldable pub transpose_typed : IdExpr → FuncType → Transposed (Identifier × Option (List ℕ))
transpose_typed e (array_type size elem) = transpose_order size >>= apply_order e size elem
transpose_typed e t = ok (record { expr = e; type = t }, none)

unfoldable pub transpose_array : Identifier → Transposed (Identifier × Option (List ℕ))
transpose_array id = transpose_typed id.expr id.type

-- `visit_array_app`, for the order that is found for the identifier.
unfoldable pub visit_array_app {ℓ} : {A : Type ℓ} → Option (List ℕ) → List A → Transposed (List A)
visit_array_app none args = ok args
visit_array_app (some order) args = reorder implicit_argument order args
