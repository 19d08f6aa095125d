-- ===== src/Primitive/ResultType/Operands.antt =====
-- common/primitives.cpp: the operands that each operation takes: how many, and, for the parts of a complex
-- number, which.
use arrp.Common.{ℕ, ◌≡◌, ◌≢◌, none, ◌↔◌, ◌⊎◌, inl, inr, if◌then◌else◌, [], ◌∷◌, some, arith}
use arrp.Primitive.{PrimitiveType, undefined, real32, complex32, complex64}
use arrp.Primitive.Op.{PrimitiveOp}
use arrp.Primitive.ResultType.{
  unary, binary, integer_result, part_result, all_undefined, rule_of, result_type,
}

-- The number of operands with which the parser builds an operation.
abbrev pub operand_count : PrimitiveOp → ℕ
operand_count PrimitiveOp.add = 2
operand_count PrimitiveOp.subtract = 2
operand_count PrimitiveOp.multiply = 2
operand_count PrimitiveOp.divide = 2
operand_count PrimitiveOp.divide_integer = 2
operand_count PrimitiveOp.modulo = 2
operand_count PrimitiveOp.bitwise_and = 2
operand_count PrimitiveOp.bitwise_or = 2
operand_count PrimitiveOp.bitwise_xor = 2
operand_count PrimitiveOp.bitwise_lshift = 2
operand_count PrimitiveOp.bitwise_rshift = 2
operand_count PrimitiveOp.raise = 2
operand_count PrimitiveOp.min = 2
operand_count PrimitiveOp.max = 2
operand_count PrimitiveOp.compare_eq = 2
operand_count PrimitiveOp.compare_neq = 2
operand_count PrimitiveOp.compare_l = 2
operand_count PrimitiveOp.compare_g = 2
operand_count PrimitiveOp.compare_leq = 2
operand_count PrimitiveOp.compare_geq = 2
operand_count PrimitiveOp.logic_and = 2
operand_count PrimitiveOp.logic_or = 2
operand_count PrimitiveOp.conditional = 3
operand_count _ = 1

-- With its one operand `bitwise_not` has no type, unless the operand is undefined.
bitwise_not_none :
    (a : PrimitiveType) → a ≢ undefined → result_type PrimitiveOp.bitwise_not (a ∷ []) ≡ none
unfolding result_type rule_of integer_result binary
bitwise_not_none a ne = ground arith

part_result_iff :
    (a r : PrimitiveType)
    → ((if all_undefined (a ∷ []) then some undefined else part_result (a ∷ [])) ≡ some r) ↔ (
        (a ≡ undefined) × (r ≡ undefined)
        ⊎ (a ≡ complex32) × (r ≡ real32)
        ⊎ (a ≡ complex64) × (r ≡ complex64))
unfolding part_result unary
part_result_iff undefined r = ground arith
part_result_iff a r = ground arith

-- The real and the imaginary part have a type for complex operands alone, and for an undefined one;
-- the part of a `complex32` is a `real32`, and that of a `complex64` a `complex64` again.
result_type-part :
    (op : PrimitiveOp) (a r : PrimitiveType)
    → (op ≡ PrimitiveOp.real) ⊎ (op ≡ PrimitiveOp.imag)
    → (result_type op (a ∷ []) ≡ some r) ↔ (
        (a ≡ undefined) × (r ≡ undefined)
        ⊎ (a ≡ complex32) × (r ≡ real32)
        ⊎ (a ≡ complex64) × (r ≡ complex64))
unfolding result_type rule_of
result_type-part op a r (inl e) = rw e (part_result_iff a r)
result_type-part op a r (inr e) = rw e (part_result_iff a r)
