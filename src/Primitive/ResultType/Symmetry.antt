-- ===== src/Primitive/ResultType/Symmetry.antt =====
-- common/primitives.cpp: `result_type`, the order of its operands, and undefined operands.
use arrp.Common.{◌≡◌, ◌≢◌, ◌↔◌, inl, inr, refl, true, List, [], ◌∷◌, some, arith}
use arrp.Primitive.{PrimitiveType, undefined}
use arrp.Primitive.Op.{PrimitiveOp}
use arrp.Primitive.CommonType.{common_type, common_type_same, Has}
use arrp.Primitive.ResultType.{
  common_integer, num_conversion_result, unary, binary, negate_result, numeric_result,
  divide_result, integer_result, function_result, log2_result, unary_real_result, exp2_result,
  binary_real_result, part_result, equality_result, comparison_result, logic_result,
  conditional_result, all_undefined, rule_of, result_type,
}

common_type_swap : (a b : PrimitiveType) → common_type (a ∷ b ∷ []) ≡ common_type (b ∷ a ∷ [])
common_type_swap a b = common_type_same _ _ (λ t. (flip a b, flip b a))
  where
    flip : (x y : PrimitiveType) → {t : PrimitiveType} → Has (x ∷ y ∷ []) t → Has (y ∷ x ∷ []) t
    flip x y (inl e) = inr (inl e)
    flip x y (inr (inl e)) = inl e
    flip x y (inr (inr r)) = absurd r

rule_of_swap :
    (op : PrimitiveOp) (a b : PrimitiveType) → rule_of op (a ∷ b ∷ []) ≡ rule_of op (b ∷ a ∷ [])
unfolding rule_of common_integer num_conversion_result unary binary negate_result numeric_result
    divide_result integer_result function_result log2_result unary_real_result exp2_result
    binary_real_result part_result equality_result comparison_result logic_result conditional_result
rule_of_swap PrimitiveOp.negate a b = refl
rule_of_swap PrimitiveOp.logic_and a b = ground arith
rule_of_swap PrimitiveOp.logic_or a b = ground arith
rule_of_swap op a b = ground (arith, common_type_swap a b)

-- The order of two operands does not matter to the type of any operation.
pub result_type_swap :
    (op : PrimitiveOp) (a b : PrimitiveType)
    → result_type op (a ∷ b ∷ []) ≡ result_type op (b ∷ a ∷ [])
unfolding result_type
result_type_swap op a b = ground (arith, rule_of_swap op a b)

rule_of-ne-undefined :
    (op : PrimitiveOp) (args : List PrimitiveType)
    → op ≢ PrimitiveOp.conditional
    → rule_of op args ≢ some undefined
unfolding rule_of common_integer num_conversion_result unary binary negate_result numeric_result
    divide_result integer_result function_result log2_result unary_real_result exp2_result
    binary_real_result part_result equality_result comparison_result logic_result conditional_result
rule_of-ne-undefined PrimitiveOp.negate [] ne h = cc
rule_of-ne-undefined op [] ne h = ground arith
rule_of-ne-undefined op (a ∷ []) ne h = ground arith
rule_of-ne-undefined op (a ∷ b ∷ []) ne h = ground arith
rule_of-ne-undefined op (a ∷ b ∷ c ∷ rest) ne h = ground arith

-- Apart from `conditional`, which can join two undefined branches, an operation has an undefined type
-- exactly when each of its operands has.
result_type-undefined :
    (op : PrimitiveOp) (args : List PrimitiveType)
    → op ≢ PrimitiveOp.conditional
    → (result_type op args ≡ some undefined) ↔ (all_undefined args ≡ true)
unfolding result_type
result_type-undefined op args ne = ground (arith, rule_of-ne-undefined op args ne)
