-- ===== src/Primitive/OpName.antt =====
-- common/primitives.cpp: the name of each primitive operation.
use Prim.Native.String.{String}
use text.Mathlib.Text.{◌==◌ as str_eq}
use arrp.Common.{◌≡◌, refl, ap, if◌then◌else◌, List, [], ◌∷◌, Option, none, some}
use arrp.Primitive.Op.{PrimitiveOp, all_ops}

unfoldable pub name_of_primitive : PrimitiveOp → String
name_of_primitive PrimitiveOp.negate = "!"
name_of_primitive PrimitiveOp.add = "+"
name_of_primitive PrimitiveOp.subtract = "-"
name_of_primitive PrimitiveOp.multiply = "*"
name_of_primitive PrimitiveOp.divide = "/"
name_of_primitive PrimitiveOp.divide_integer = ":"
name_of_primitive PrimitiveOp.modulo = "%"
name_of_primitive PrimitiveOp.bitwise_not = ".not"
name_of_primitive PrimitiveOp.bitwise_and = ".and"
name_of_primitive PrimitiveOp.bitwise_or = ".or"
name_of_primitive PrimitiveOp.bitwise_xor = ".xor"
name_of_primitive PrimitiveOp.bitwise_lshift = ".<<"
name_of_primitive PrimitiveOp.bitwise_rshift = ".>>"
name_of_primitive PrimitiveOp.raise = "^"
name_of_primitive PrimitiveOp.exp = "exp"
name_of_primitive PrimitiveOp.exp2 = "exp2"
name_of_primitive PrimitiveOp.log = "log"
name_of_primitive PrimitiveOp.log2 = "log2"
name_of_primitive PrimitiveOp.log10 = "log10"
name_of_primitive PrimitiveOp.sqrt = "sqrt"
name_of_primitive PrimitiveOp.sin = "sin"
name_of_primitive PrimitiveOp.cos = "cos"
name_of_primitive PrimitiveOp.tan = "tan"
name_of_primitive PrimitiveOp.asin = "asin"
name_of_primitive PrimitiveOp.acos = "acos"
name_of_primitive PrimitiveOp.atan = "atan"
name_of_primitive PrimitiveOp.ceil = "ceil"
name_of_primitive PrimitiveOp.floor = "floor"
name_of_primitive PrimitiveOp.abs = "abs"
name_of_primitive PrimitiveOp.min = "min"
name_of_primitive PrimitiveOp.max = "max"
name_of_primitive PrimitiveOp.real = "real"
name_of_primitive PrimitiveOp.imag = "imag"
name_of_primitive PrimitiveOp.to_int = "int"
name_of_primitive PrimitiveOp.to_int8 = "int8"
name_of_primitive PrimitiveOp.to_uint8 = "uint8"
name_of_primitive PrimitiveOp.to_int16 = "int16"
name_of_primitive PrimitiveOp.to_uint16 = "uint16"
name_of_primitive PrimitiveOp.to_int32 = "int32"
name_of_primitive PrimitiveOp.to_uint32 = "uint32"
name_of_primitive PrimitiveOp.to_int64 = "int64"
name_of_primitive PrimitiveOp.to_uint64 = "uint64"
name_of_primitive PrimitiveOp.to_real32 = "real32"
name_of_primitive PrimitiveOp.to_real64 = "real64"
name_of_primitive PrimitiveOp.to_complex32 = "complex32"
name_of_primitive PrimitiveOp.to_complex64 = "complex64"
name_of_primitive PrimitiveOp.compare_eq = "=="
name_of_primitive PrimitiveOp.compare_neq = "!="
name_of_primitive PrimitiveOp.compare_l = "<"
name_of_primitive PrimitiveOp.compare_g = ">"
name_of_primitive PrimitiveOp.compare_leq = "<="
name_of_primitive PrimitiveOp.compare_geq = ">="
name_of_primitive PrimitiveOp.logic_and = "&&"
name_of_primitive PrimitiveOp.logic_or = "||"
name_of_primitive PrimitiveOp.conditional = "if"

-- The first operation of the list that has the name.
named_in : String → List PrimitiveOp → Option PrimitiveOp
named_in s [] = none
named_in s (op ∷ ops) =
    let rest = named_in s ops in if str_eq (name_of_primitive op) s then some op else rest

primitive_named : String → Option PrimitiveOp
unfolding named_in name_of_primitive
primitive_named s = named_in s all_ops

primitive_named-name : (op : PrimitiveOp) → primitive_named (name_of_primitive op) ≡ some op
unfolding primitive_named
primitive_named-name PrimitiveOp.negate = refl
primitive_named-name _ = refl

-- No two operations have one name.
name_of_primitive-injective :
    (a b : PrimitiveOp) → name_of_primitive a ≡ name_of_primitive b → a ≡ b
name_of_primitive-injective a b h =
    let p = primitive_named-name a in let q = primitive_named-name b in cc (ap primitive_named h)
