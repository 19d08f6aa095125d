-- ===== src/Primitive/ResultType/Arithmetic.antt =====
-- common/primitives.cpp: the types of the results of arithmetic operations.
use arrp.Common.{
  ◌≡◌, ◌≢◌, ◌⊎◌, inl, inr, refl, Bool, true, false, [], ◌∷◌, some, Option-cases, arith,
}
use arrp.Primitive.{PrimitiveType, undefined, boolean, is_integer, is_numeric, real64}
use arrp.Primitive.Op.{PrimitiveOp}
use arrp.Primitive.Order.{le, lt, le_trans}
use arrp.Primitive.CommonType.{common_type, common_type_iff}
use arrp.Primitive.ResultType.{
  common_integer, num_conversion_result, unary, binary, negate_result, numeric_result,
  divide_result, integer_result, function_result, log2_result, unary_real_result, exp2_result,
  binary_real_result, part_result, equality_result, comparison_result, logic_result,
  conditional_result, all_undefined, rule_of, result_type,
}

-- The operations that compute a number from two numbers.
abbrev pub is_arithmetic : PrimitiveOp → Bool
is_arithmetic PrimitiveOp.add = true
is_arithmetic PrimitiveOp.subtract = true
is_arithmetic PrimitiveOp.multiply = true
is_arithmetic PrimitiveOp.divide = true
is_arithmetic PrimitiveOp.divide_integer = true
is_arithmetic PrimitiveOp.modulo = true
is_arithmetic PrimitiveOp.bitwise_and = true
is_arithmetic PrimitiveOp.bitwise_or = true
is_arithmetic PrimitiveOp.bitwise_xor = true
is_arithmetic PrimitiveOp.bitwise_lshift = true
is_arithmetic PrimitiveOp.bitwise_rshift = true
is_arithmetic PrimitiveOp.raise = true
is_arithmetic PrimitiveOp.min = true
is_arithmetic PrimitiveOp.max = true
is_arithmetic _ = false

-- What the rules of these operations make of a common type: it, or `real64` for an integer type.
rule_of-arithmetic :
    (op : PrimitiveOp) (a b : PrimitiveType) {r : PrimitiveType}
    → is_arithmetic op ≡ true
    → rule_of op (a ∷ b ∷ []) ≡ some r
    → (c : PrimitiveType) × (common_type (a ∷ b ∷ []) ≡ some c)
      × (is_numeric r ≡ true)
      × ((r ≡ c) ⊎ ((r ≡ real64) × (is_integer c ≡ true)))
unfolding rule_of common_integer num_conversion_result unary binary negate_result numeric_result
    divide_result integer_result function_result log2_result unary_real_result exp2_result
    binary_real_result part_result equality_result comparison_result logic_result conditional_result
rule_of-arithmetic PrimitiveOp.negate a b i h = cc
rule_of-arithmetic op a b i h = elim (Option-cases (common_type (a ∷ b ∷ []))) [
  | inl e ↦ ground arith
  | inr (c, e) ↦ (c, e, ground arith, ground arith)
]

le-real64 : (t : PrimitiveType) → is_integer t ≡ true → le t real64 ≡ true
unfolding le lt
le-real64 undefined h = refl
le-real64 t h = ground arith

-- An operand below the common type is below the type of the result.
le-result :
    {a c r : PrimitiveType}
    → a ≢ boolean
    → le a c ≡ true
    → (r ≡ c) ⊎ ((r ≡ real64) × (is_integer c ≡ true))
    → le a r ≡ true
le-result ne h (inl e) = rw e h
le-result {a} {c} ne h (inr (e, i)) = rw e (le_trans a c real64 ne h (le-real64 c i))

-- Where an arithmetic operation on two operands, of which neither is `boolean` and not both are undefined, has
-- a type, that type is numeric, and both operands can be promoted to it.
pub result_type-arithmetic :
    (op : PrimitiveOp) (a b : PrimitiveType) {r : PrimitiveType}
    → is_arithmetic op ≡ true
    → all_undefined (a ∷ b ∷ []) ≡ false
    → a ≢ boolean
    → b ≢ boolean
    → result_type op (a ∷ b ∷ []) ≡ some r
    → (is_numeric r ≡ true) × (le a r ≡ true) × (le b r ≡ true)
unfolding result_type
result_type-arithmetic op a b i u na nb h =
    let (c, e, num, below) = rule_of-arithmetic op a b i (rw u at h) in
    let bound = ((common_type_iff (a ∷ b ∷ []) c).0 e).1 in
    (num, le-result na (bound a (inl refl)) below, le-result nb (bound b (inr (inl refl))) below)
