-- ===== src/Primitive/ResultType/Tests.antt =====
-- The theorems on the types of the results, on examples.
use arrp.Common.{◌≡◌, refl, true}
use arrp.Primitive.{int8, int32, real64, is_numeric}
use arrp.Primitive.Op.{PrimitiveOp}
use arrp.Primitive.Order.{le, lt}
use arrp.Primitive.CommonType.{common_type, max_element}
use arrp.Primitive.ResultType.{result_type, rule_of, divide_result, binary}
use arrp.Primitive.ResultType.Arithmetic.{result_type-arithmetic}

result_type-arithmetic_example :
    (is_numeric real64 ≡ true) × (le int8 real64 ≡ true) × (le int32 real64 ≡ true)
unfolding result_type rule_of divide_result binary common_type max_element le lt
result_type-arithmetic_example =
    result_type-arithmetic PrimitiveOp.divide int8 int32 refl refl (λ e. cc) (λ e. cc) refl
