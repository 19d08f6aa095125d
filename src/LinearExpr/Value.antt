-- ===== src/LinearExpr/Value.antt =====
-- The values of index expressions, and what is documented of isl and GMP.
use arrp.Common.{
  ℕ, suc, ◌-◌, ◌/◌, ◌%◌, ◌^◌, ltb, ◌≡◌, Bool, true, false, if◌then◌else◌, List, [], ◌∷◌, Option,
  none, some,
}
use arrp.Common.Int.{ℤ, pos, negsuc, ◌+ℤ◌, ◌-ℤ◌, ◌*ℤ◌}
use arrp.Common.Ring.{opposite}
use arrp.Common.Partial.{◌>>=◌}
use arrp.Primitive.Op.{PrimitiveOp}
use arrp.Functional.{
  Expr, Exprs, int_const, reference, primitive, array_var, identifier, no_exprs, more_exprs,
}
use arrp.LinearExpr.{Isl}

-- The number is one of type `long`.
abbrev pub is_long : ℤ → Bool
is_long (pos n) = ltb n (2 ^ 63)
is_long (negsuc n) = ltb n (2 ^ 63)

-- The greatest integer that is not above a / k, and what is left, for k > 0.
abbrev pub floor_div : ℤ → ℕ → ℤ
floor_div (pos n) k = pos (n / k)
floor_div (negsuc n) k = negsuc (n / k)

abbrev pub floor_mod : ℤ → ℕ → ℤ
floor_mod (pos n) k = pos (n % k)
floor_mod (negsuc n) k = pos (k - 1 - n % k)

-- Division that rounds down, by a positive number; by another one there is no value.
abbrev pub divided : ℤ → ℤ → Option ℤ
divided a (pos (suc k)) = some (floor_div a (suc k))
divided a _ = none

abbrev pub remainder : ℤ → ℤ → Option ℤ
remainder a (pos (suc k)) = some (floor_mod a (suc k))
remainder a _ = none

-- The value of an operation on integers.
abbrev pub operation_value : PrimitiveOp → List ℤ → Option ℤ
operation_value PrimitiveOp.add (a ∷ b ∷ []) = some (a +ℤ b)
operation_value PrimitiveOp.subtract (a ∷ b ∷ []) = some (a -ℤ b)
operation_value PrimitiveOp.negate (a ∷ []) = some (opposite a)
operation_value PrimitiveOp.multiply (a ∷ b ∷ []) = some (a *ℤ b)
operation_value PrimitiveOp.divide_integer (a ∷ b ∷ []) = divided a b
operation_value PrimitiveOp.modulo (a ∷ b ∷ []) = remainder a b
operation_value _ _ = none

-- The value of an expression, for those of the array variables.
unfoldable mutual
  pub value : (ℕ → ℤ) → Expr → Option ℤ
  value p (int_const v t) = if is_long v then some v else none
  value p (reference (array_var i) t) = some (p i)
  value p (reference (identifier false e) t) = value p e
  value p (primitive op es t) = values p es >>= operation_value op
  value p _ = none

  pub values : (ℕ → ℤ) → Exprs → Option (List ℤ)
  values p no_exprs = some []
  values p (more_exprs e es) = value p e >>= λ v. values p es >>= λ vs. some (v ∷ vs)

-- Each array variable has a place in the space.
unfoldable mutual
  pub IsInSpace : (ℕ → Option ℕ) → Expr → Type 0
  IsInSpace index_of (reference (array_var i) t) = (d : ℕ) × (index_of i ≡ some d)
  IsInSpace index_of (reference (identifier r e) t) = IsInSpace index_of e
  IsInSpace index_of (primitive op es t) = AreInSpace index_of es
  IsInSpace index_of _ = Unit

  pub AreInSpace : (ℕ → Option ℕ) → Exprs → Type 0
  AreInSpace index_of no_exprs = Unit
  AreInSpace index_of (more_exprs e es) = IsInSpace index_of e × AreInSpace index_of es

-- `eval a p` is the value of the expression at a point of the space.
pub record IslLaws {Aff : Type 0} (isl : Isl Aff) (eval : Aff → (ℕ → ℤ) → ℤ) : Type 0 where
  pub eval-val : (v : ℤ) (p : ℕ → ℤ) → eval (isl.val v) p ≡ v
  pub eval-dim : (d : ℕ) (p : ℕ → ℤ) → eval (isl.dim d) p ≡ p d
  pub eval-plus : (a b : Aff) (p : ℕ → ℤ) → eval (isl.plus a b) p ≡ eval a p +ℤ eval b p
  pub eval-minus : (a b : Aff) (p : ℕ → ℤ) → eval (isl.minus a b) p ≡ eval a p -ℤ eval b p
  pub eval-negated : (a : Aff) (p : ℕ → ℤ) → eval (isl.negated a) p ≡ opposite (eval a p)
  pub eval-scale : (k : ℤ) (a : Aff) (p : ℕ → ℤ) → eval (isl.scale k a) p ≡ k *ℤ eval a p
  pub eval-constant : (a : Aff) (p : ℕ → ℤ) → isl.is_constant a ≡ true → eval a p ≡ isl.constant a
  pub val-constant : (v : ℤ) → isl.is_constant (isl.val v) ≡ true
  pub plus-constant :
      (a b : Aff)
      → isl.is_constant a ≡ true
      → isl.is_constant b ≡ true
      → isl.is_constant (isl.plus a b) ≡ true
  pub minus-constant :
      (a b : Aff)
      → isl.is_constant a ≡ true
      → isl.is_constant b ≡ true
      → isl.is_constant (isl.minus a b) ≡ true
  pub scale-constant :
      (k : ℤ) (a : Aff) → isl.is_constant a ≡ true → isl.is_constant (isl.scale k a) ≡ true
  -- Divisors are positive.
  pub floor_over_lem :
      (a : Aff) (k : ℕ)
      → (b : Aff) × (isl.floor_over a (pos (suc k)) ≡ some b)
        × ((p : ℕ → ℤ) → eval b p ≡ floor_div (eval a p) (suc k))
        × (isl.is_constant a ≡ true → isl.is_constant b ≡ true)
  pub mod_over_lem :
      (a : Aff) (k : ℕ)
      → (b : Aff) × (isl.mod_over a (pos (suc k)) ≡ some b)
        × ((p : ℕ → ℤ) → eval b p ≡ floor_mod (eval a p) (suc k))
        × (isl.is_constant a ≡ true → isl.is_constant b ≡ true)
