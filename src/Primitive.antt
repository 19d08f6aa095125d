-- ===== src/Primitive.antt =====
-- common/primitives.hpp: the primitive types of the language, their order of declaration, which
-- the type groups rely on, and the tests on them.
pub mod Order
pub mod CommonType
pub mod Op
pub mod OpName
pub mod ResultType
pub mod TypeName
mod Tests
use arrp.Common.{
  ℕ, ◌≡◌, refl, Bool, true, false, ◌&&◌, ◌||◌, List, [], ◌∷◌, ◌++◌, leb, ◌==◌, arith, ap, ◌↔◌, not,
  get_or, ==_iff, sym, ◌∙◌,
}

pub data PrimitiveType : Type 0 where
  undefined boolean : PrimitiveType
  int8 uint8 int16 uint16 int32 uint32 int64 uint64 : PrimitiveType
  real32 real64 complex32 complex64 infinity : PrimitiveType

-- The integer that a value of the C++ enumeration stands for.
abbrev pub ordinal : PrimitiveType → ℕ
ordinal undefined = 0
ordinal boolean = 1
ordinal int8 = 2
ordinal uint8 = 3
ordinal int16 = 4
ordinal uint16 = 5
ordinal int32 = 6
ordinal uint32 = 7
ordinal int64 = 8
ordinal uint64 = 9
ordinal real32 = 10
ordinal real64 = 11
ordinal complex32 = 12
ordinal complex64 = 13
ordinal infinity = 14

-- `a == b` of the enumeration.
abbrev pub same_type : PrimitiveType → PrimitiveType → Bool
same_type a b = ordinal a == ordinal b

abbrev pub all_integer_types : List PrimitiveType
all_integer_types = int8 ∷ uint8 ∷ int16 ∷ uint16 ∷ int32 ∷ uint32 ∷ int64 ∷ uint64 ∷ []

abbrev pub all_real_types : List PrimitiveType
all_real_types = real32 ∷ real64 ∷ []

abbrev pub all_complex_types : List PrimitiveType
all_complex_types = complex32 ∷ complex64 ∷ []

-- Both loops of `combine_types` push at the end of an empty vector.
abbrev pub combine_types : List PrimitiveType → List PrimitiveType → List PrimitiveType
combine_types a b = ([] ++ a) ++ b

abbrev pub all_simple_numeric_types : List PrimitiveType
all_simple_numeric_types = combine_types all_integer_types (real32 ∷ real64 ∷ [])

abbrev pub all_numeric_types : List PrimitiveType
all_numeric_types = (all_simple_numeric_types ++ complex32 ∷ []) ++ complex64 ∷ []

-- `std::any_of` with equality to `a`, the loop `for (t : types) if (a == t) return true`.
abbrev pub is_one_of : PrimitiveType → List PrimitiveType → Bool
is_one_of a [] = false
is_one_of a (t ∷ ts) = same_type a t || is_one_of a ts

abbrev pub is_real : PrimitiveType → Bool
is_real t = same_type t real32 || same_type t real64

-- At this point of the header the comparison of the enumeration is that of its integers.
abbrev pub is_integer : PrimitiveType → Bool
is_integer t = leb (ordinal int8) (ordinal t) && leb (ordinal t) (ordinal uint64)

abbrev pub is_signed_int : PrimitiveType → Bool
is_signed_int int8 = true
is_signed_int int16 = true
is_signed_int int32 = true
is_signed_int int64 = true
is_signed_int _ = false

abbrev pub is_complex : PrimitiveType → Bool
is_complex t = same_type t complex32 || same_type t complex64

abbrev pub is_numeric : PrimitiveType → Bool
is_numeric t = is_integer t || is_real t || is_complex t

-- Every type, in the order of declaration.
abbrev pub all_types : List PrimitiveType
all_types = undefined ∷ boolean ∷ all_numeric_types ++ infinity ∷ []

abbrev pub of_ordinal : ℕ → PrimitiveType
of_ordinal n = get_or all_types n infinity

pub of_ordinal-ordinal : (t : PrimitiveType) → of_ordinal (ordinal t) ≡ t
of_ordinal-ordinal undefined = refl
of_ordinal-ordinal _ = refl

pub same_type_iff : (a b : PrimitiveType) → (same_type a b ≡ true) ↔ (a ≡ b)
same_type_iff a b = (
  λ h. sym (of_ordinal-ordinal a) ∙ ap of_ordinal ((==_iff _ _).0 h) ∙ of_ordinal-ordinal b,
  λ e. (==_iff _ _).1 (ap ordinal e),
)

-- A test that holds of each of the fifteen types.
abbrev pub is_all : (PrimitiveType → Bool) → List PrimitiveType → Bool
is_all p [] = true
is_all p (t ∷ ts) = p t && is_all p ts

pub every_sound :
    (p : PrimitiveType → Bool) → is_all p all_types ≡ true → (t : PrimitiveType) → p t ≡ true
every_sound p h undefined = ground arith
every_sound p h _ = ground arith

-- The same for tests on two and on three types.
abbrev pub is_all2 : (PrimitiveType → PrimitiveType → Bool) → Bool
is_all2 p = is_all (λ a. is_all (p a) all_types) all_types

abbrev pub is_all3 : (PrimitiveType → PrimitiveType → PrimitiveType → Bool) → Bool
is_all3 p = is_all (λ a. is_all2 (p a)) all_types

pub every2_sound :
    (p : PrimitiveType → PrimitiveType → Bool)
    → is_all2 p ≡ true
    → (a b : PrimitiveType) → p a b ≡ true
every2_sound p h a = every_sound (p a) (every_sound (λ a. is_all (p a) all_types) h a)

pub every3_sound :
    (p : PrimitiveType → PrimitiveType → PrimitiveType → Bool)
    → is_all3 p ≡ true
    → (a b c : PrimitiveType) → p a b c ≡ true
every3_sound p h a = every2_sound (p a) (every_sound (λ a. is_all2 (p a)) h a)

abbrev pub implies : Bool → Bool → Bool
implies a b = not a || b

pub implies_elim : (a b : Bool) → implies a b ≡ true → a ≡ true → b ≡ true
implies_elim a b h e = ground arith
