-- ===== src/Primitive/Op.antt =====
-- common/primitives.hpp: the primitive operations of the language.
use arrp.Common.{List, [], ◌∷◌}

pub data PrimitiveOp : Type 0 where
  negate add subtract multiply divide divide_integer : PrimitiveOp
  modulo bitwise_not bitwise_and bitwise_or bitwise_xor bitwise_lshift : PrimitiveOp
  bitwise_rshift raise exp exp2 log log2 : PrimitiveOp
  log10 sqrt sin cos tan asin : PrimitiveOp
  acos atan ceil floor abs min : PrimitiveOp
  max real imag to_int to_int8 to_uint8 : PrimitiveOp
  to_int16 to_uint16 to_int32 to_uint32 to_int64 to_uint64 : PrimitiveOp
  to_real32 to_real64 to_complex32 to_complex64 compare_eq compare_neq : PrimitiveOp
  compare_l compare_g compare_leq compare_geq logic_and logic_or : PrimitiveOp
  conditional : PrimitiveOp

-- Every operation, in the order of declaration.
abbrev pub all_ops : List PrimitiveOp
all_ops =
    PrimitiveOp.negate ∷ PrimitiveOp.add ∷ PrimitiveOp.subtract ∷ PrimitiveOp.multiply
    ∷ PrimitiveOp.divide ∷ PrimitiveOp.divide_integer ∷ PrimitiveOp.modulo ∷ PrimitiveOp.bitwise_not
    ∷ PrimitiveOp.bitwise_and ∷ PrimitiveOp.bitwise_or ∷ PrimitiveOp.bitwise_xor
    ∷ PrimitiveOp.bitwise_lshift ∷ PrimitiveOp.bitwise_rshift ∷ PrimitiveOp.raise ∷ PrimitiveOp.exp
    ∷ PrimitiveOp.exp2 ∷ PrimitiveOp.log ∷ PrimitiveOp.log2 ∷ PrimitiveOp.log10 ∷ PrimitiveOp.sqrt
    ∷ PrimitiveOp.sin ∷ PrimitiveOp.cos ∷ PrimitiveOp.tan ∷ PrimitiveOp.asin ∷ PrimitiveOp.acos
    ∷ PrimitiveOp.atan ∷ PrimitiveOp.ceil ∷ PrimitiveOp.floor ∷ PrimitiveOp.abs ∷ PrimitiveOp.min
    ∷ PrimitiveOp.max ∷ PrimitiveOp.real ∷ PrimitiveOp.imag ∷ PrimitiveOp.to_int
    ∷ PrimitiveOp.to_int8 ∷ PrimitiveOp.to_uint8 ∷ PrimitiveOp.to_int16 ∷ PrimitiveOp.to_uint16
    ∷ PrimitiveOp.to_int32 ∷ PrimitiveOp.to_uint32 ∷ PrimitiveOp.to_int64 ∷ PrimitiveOp.to_uint64
    ∷ PrimitiveOp.to_real32 ∷ PrimitiveOp.to_real64 ∷ PrimitiveOp.to_complex32
    ∷ PrimitiveOp.to_complex64 ∷ PrimitiveOp.compare_eq ∷ PrimitiveOp.compare_neq
    ∷ PrimitiveOp.compare_l ∷ PrimitiveOp.compare_g ∷ PrimitiveOp.compare_leq
    ∷ PrimitiveOp.compare_geq ∷ PrimitiveOp.logic_and ∷ PrimitiveOp.logic_or
    ∷ PrimitiveOp.conditional ∷ []
