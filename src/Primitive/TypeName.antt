-- ===== src/Primitive/TypeName.antt =====
-- common/primitives.hpp and common/primitives.cpp: the names of primitive types, as they are written
-- in a program and printed in a message.
use Prim.Native.String.{String}
use text.Mathlib.Text.{◌==◌ as str_eq}
use arrp.Common.{◌≡◌, ◌≢◌, refl, if◌then◌else◌, List, [], ◌∷◌, Option, none, some}
use arrp.Primitive.{
  PrimitiveType, undefined, boolean, int8, uint8, int16, uint16, int32, uint32, int64, uint64,
  real32, real64, complex32, complex64, infinity,
}

-- The map of `primitive_type_for_name`.
abbrev type_names : List (String × PrimitiveType)
type_names =
    ("bool", boolean)
    ∷ ("int", int32)
    ∷ ("int8", int8)
    ∷ ("uint8", uint8)
    ∷ ("int16", int16)
    ∷ ("uint16", uint16)
    ∷ ("int32", int32)
    ∷ ("uint32", uint32)
    ∷ ("int64", int64)
    ∷ ("uint64", uint64)
    ∷ ("real", real64)
    ∷ ("real32", real32)
    ∷ ("real64", real64)
    ∷ ("complex32", complex32)
    ∷ ("complex64", complex64)
    ∷ []

find_name : String → List (String × PrimitiveType) → Option PrimitiveType
find_name s [] = none
find_name s ((n, t) ∷ rest) = let later = find_name s rest in if str_eq n s then some t else later

unfoldable pub primitive_type_for_name : String → PrimitiveType
unfolding find_name
primitive_type_for_name s = elim (find_name s type_names) [ none ↦ undefined | some t ↦ t ]

-- The `operator<<` of the enumeration.
unfoldable pub print_type : PrimitiveType → String
print_type boolean = "bool"
print_type int8 = "int8"
print_type uint8 = "uint8"
print_type int16 = "int16"
print_type uint16 = "uint16"
print_type int32 = "int32"
print_type uint32 = "uint32"
print_type int64 = "int64"
print_type uint64 = "uint64"
print_type real32 = "real32"
print_type real64 = "real64"
print_type complex32 = "complex32"
print_type complex64 = "complex64"
print_type infinity = "infinity"
print_type _ = "?"

-- The name that is printed for a type is read back as that type. (`infinity` is the one type that no
-- name stands for.)
type_for_name-print_type :
    (t : PrimitiveType) → t ≢ infinity → primitive_type_for_name (print_type t) ≡ t
unfolding primitive_type_for_name print_type
type_for_name-print_type undefined ne = refl
type_for_name-print_type infinity ne = absurd (ne refl)
type_for_name-print_type _ ne = refl
