-- ===== src/Primitive/ResultType.antt =====
-- common/primitives.cpp: the type of the result of a primitive operation, for the types of its
-- operands. `none` is the exception `no_type`. Each case of the switch is a function of its own.
use arrp.Common.{Bool, true, ◌&&◌, ◌||◌, if◌then◌else◌, List, [], ◌∷◌, Option, none, some}
use arrp.Primitive.{
  PrimitiveType, undefined, boolean, int8, uint8, int16, uint16, int32, uint32, int64, uint64,
  real32, real64, complex32, complex64, same_type, is_integer, is_real, is_complex, is_numeric,
}
use arrp.Primitive.Op.{PrimitiveOp}
use arrp.Primitive.CommonType.{common_type}
use arrp.Common.Partial.{◌>>=◌}
pub mod Symmetry
pub mod Arithmetic
pub mod Operands
mod Tests

-- A value that a test keeps; the exception otherwise.
abbrev pub only_if : Bool → PrimitiveType → Option PrimitiveType
only_if test t = if test then some t else none

-- `common_integer`.
unfoldable pub common_integer : List PrimitiveType → Option PrimitiveType
common_integer types = common_type types >>= λ ct. only_if (is_integer ct) ct

-- `num_conversion_result`: one numeric operand.
unfoldable pub num_conversion_result : PrimitiveType → List PrimitiveType → Option PrimitiveType
num_conversion_result requested (a ∷ []) = only_if (is_numeric a) requested
num_conversion_result requested _ = none

-- The operand of an operation with one, and the common type of an operation with two: the check on
-- the number of operands, and the rule for what it leaves.
unfoldable pub unary :
    (PrimitiveType → Option PrimitiveType) → List PrimitiveType → Option PrimitiveType
unary rule (a ∷ []) = rule a
unary rule _ = none

unfoldable pub binary :
    (PrimitiveType → Option PrimitiveType) → List PrimitiveType → Option PrimitiveType
binary rule (a ∷ b ∷ []) = common_type (a ∷ b ∷ []) >>= rule
binary rule _ = none

unfoldable pub negate_result : List PrimitiveType → Option PrimitiveType
negate_result = unary (λ a. only_if (is_numeric a || same_type a boolean) a)

unfoldable pub numeric_result : List PrimitiveType → Option PrimitiveType
numeric_result = binary (λ ct. only_if (is_numeric ct) ct)

unfoldable pub divide_result : List PrimitiveType → Option PrimitiveType
divide_result =
    binary (λ ct. if is_integer ct then some real64 else only_if (is_real ct || is_complex ct) ct)

unfoldable pub integer_result : List PrimitiveType → Option PrimitiveType
integer_result (a ∷ b ∷ []) = common_integer (a ∷ b ∷ [])
integer_result _ = none

unfoldable pub function_result : List PrimitiveType → Option PrimitiveType
function_result =
    unary (λ a. if is_integer a then some real64 else only_if (is_real a || is_complex a) a)

unfoldable pub log2_result : List PrimitiveType → Option PrimitiveType
log2_result = unary (λ a. if is_integer a then some real64 else only_if (is_real a) a)

unfoldable pub unary_real_result : List PrimitiveType → Option PrimitiveType
unary_real_result = unary (λ a. only_if (is_integer a || is_real a) a)

-- The case of `exp2` has no `break`: where its test fails, that of `ceil` follows.
unfoldable pub exp2_result : List PrimitiveType → Option PrimitiveType
exp2_result = unary (λ a. if is_integer a || is_real a then some a else unary_real_result (a ∷ []))

unfoldable pub binary_real_result : List PrimitiveType → Option PrimitiveType
binary_real_result = binary (λ ct. only_if (is_integer ct || is_real ct) ct)

unfoldable pub part_result : List PrimitiveType → Option PrimitiveType
part_result =
    unary (λ a.
      if same_type a complex32 then some real32 else only_if (same_type a complex64) complex64)

unfoldable pub equality_result : List PrimitiveType → Option PrimitiveType
equality_result = binary (λ ct. only_if (is_numeric ct || same_type ct boolean) boolean)

unfoldable pub comparison_result : List PrimitiveType → Option PrimitiveType
comparison_result = binary (λ ct. only_if (is_integer ct || is_real ct) boolean)

unfoldable pub logic_result : List PrimitiveType → Option PrimitiveType
logic_result (a ∷ b ∷ []) = only_if (same_type a boolean && same_type b boolean) boolean
logic_result _ = none

unfoldable pub conditional_result : List PrimitiveType → Option PrimitiveType
conditional_result (c ∷ a ∷ b ∷ []) = if same_type c boolean then common_type (a ∷ b ∷ []) else none
conditional_result _ = none

-- `std::all_of` with the test for `undefined`: it holds of the empty list too.
abbrev pub all_undefined : List PrimitiveType → Bool
all_undefined [] = true
all_undefined (t ∷ ts) = same_type t undefined && all_undefined ts

-- The switch.
unfoldable pub rule_of : PrimitiveOp → List PrimitiveType → Option PrimitiveType
rule_of PrimitiveOp.negate = negate_result
rule_of PrimitiveOp.add = numeric_result
rule_of PrimitiveOp.subtract = numeric_result
rule_of PrimitiveOp.multiply = numeric_result
rule_of PrimitiveOp.divide = divide_result
rule_of PrimitiveOp.divide_integer = integer_result
rule_of PrimitiveOp.modulo = integer_result
rule_of PrimitiveOp.bitwise_not = integer_result
rule_of PrimitiveOp.bitwise_and = integer_result
rule_of PrimitiveOp.bitwise_or = integer_result
rule_of PrimitiveOp.bitwise_xor = integer_result
rule_of PrimitiveOp.bitwise_lshift = integer_result
rule_of PrimitiveOp.bitwise_rshift = integer_result
rule_of PrimitiveOp.raise = numeric_result
rule_of PrimitiveOp.exp = function_result
rule_of PrimitiveOp.exp2 = exp2_result
rule_of PrimitiveOp.log = function_result
rule_of PrimitiveOp.log2 = log2_result
rule_of PrimitiveOp.log10 = function_result
rule_of PrimitiveOp.sqrt = function_result
rule_of PrimitiveOp.sin = function_result
rule_of PrimitiveOp.cos = function_result
rule_of PrimitiveOp.tan = function_result
rule_of PrimitiveOp.asin = function_result
rule_of PrimitiveOp.acos = function_result
rule_of PrimitiveOp.atan = function_result
rule_of PrimitiveOp.ceil = unary_real_result
rule_of PrimitiveOp.floor = unary_real_result
rule_of PrimitiveOp.abs = unary_real_result
rule_of PrimitiveOp.min = binary_real_result
rule_of PrimitiveOp.max = binary_real_result
rule_of PrimitiveOp.real = part_result
rule_of PrimitiveOp.imag = part_result
rule_of PrimitiveOp.to_int = num_conversion_result int32
rule_of PrimitiveOp.to_int8 = num_conversion_result int8
rule_of PrimitiveOp.to_uint8 = num_conversion_result uint8
rule_of PrimitiveOp.to_int16 = num_conversion_result int16
rule_of PrimitiveOp.to_uint16 = num_conversion_result uint16
rule_of PrimitiveOp.to_int32 = num_conversion_result int32
rule_of PrimitiveOp.to_uint32 = num_conversion_result uint32
rule_of PrimitiveOp.to_int64 = num_conversion_result int64
rule_of PrimitiveOp.to_uint64 = num_conversion_result uint64
rule_of PrimitiveOp.to_real32 = num_conversion_result real32
rule_of PrimitiveOp.to_real64 = num_conversion_result real64
rule_of PrimitiveOp.to_complex32 = num_conversion_result complex32
rule_of PrimitiveOp.to_complex64 = num_conversion_result complex64
rule_of PrimitiveOp.compare_eq = equality_result
rule_of PrimitiveOp.compare_neq = equality_result
rule_of PrimitiveOp.compare_l = comparison_result
rule_of PrimitiveOp.compare_g = comparison_result
rule_of PrimitiveOp.compare_leq = comparison_result
rule_of PrimitiveOp.compare_geq = comparison_result
rule_of PrimitiveOp.logic_and = logic_result
rule_of PrimitiveOp.logic_or = logic_result
rule_of PrimitiveOp.conditional = conditional_result

unfoldable pub result_type : PrimitiveOp → List PrimitiveType → Option PrimitiveType
result_type op args = if all_undefined args then some undefined else rule_of op args
