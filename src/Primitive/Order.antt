-- ===== src/Primitive/Order.antt =====
-- common/primitives.cpp: `operator<` and `operator<=` on primitive types, by which types of operands
-- are joined.
use arrp.Common.{
  ℕ, ◌-◌, ◌^◌, ◌<◌, ◌≤◌, ◌≡◌, ◌≢◌, refl, ◌⊎◌, inl, inr, Bool-cases, Bool, true, false, not, ◌&&◌,
  ◌||◌, if◌then◌else◌, ltb, arith,
}
use arrp.Common.Int.{ℤ, pos_part, neg_part}
use arrp.Primitive.{
  PrimitiveType, undefined, boolean, int8, uint8, int16, uint16, int32, uint32, int64, uint64,
  real32, real64, complex32, complex64, infinity, ordinal, same_type, same_type_iff, is_one_of,
  all_integer_types, is_signed_int, is_integer, is_real, is_complex, every2_sound, every3_sound,
  is_all2, is_all3, implies, implies_elim,
}

same_sign : PrimitiveType → PrimitiveType → Bool
same_sign b a = if is_signed_int b then is_signed_int a else not (is_signed_int a)

-- The switch on `b`, for an `a` that is not `undefined`.
lt_in : PrimitiveType → PrimitiveType → Bool
lt_in infinity a = false
lt_in boolean a = false
lt_in complex64 a = is_one_of a all_integer_types || (same_type a real32 || same_type a real64)
lt_in complex32 a = is_one_of a all_integer_types || same_type a real32
lt_in real64 a = is_one_of a all_integer_types || same_type a real32
lt_in real32 a = is_one_of a all_integer_types || false
lt_in b a = same_sign b a && ltb (ordinal a) (ordinal b)

-- `a < b`.
unfoldable pub lt : PrimitiveType → PrimitiveType → Bool
unfolding lt_in same_sign
lt a b = if same_type a undefined then true else lt_in b a

-- `a <= b`.
unfoldable pub le : PrimitiveType → PrimitiveType → Bool
le a b = same_type a b || lt a b

pub le_refl : (t : PrimitiveType) → le t t ≡ true
unfolding le lt
le_refl undefined = refl
le_refl _ = refl

-- `a <= b` says that the types are one, or that `a < b`.
pub le_cases : (a b : PrimitiveType) → le a b ≡ true → (a ≡ b) ⊎ (lt a b ≡ true)
unfolding le
le_cases a b h = elim (Bool-cases (same_type a b)) [
  | inl e ↦ inl ((same_type_iff a b).0 e)
  | inr e ↦ inr (ground arith)
]

pub lt-le : (a b : PrimitiveType) → lt a b ≡ true → le a b ≡ true
unfolding le
lt-le a b h = ground arith

antisym_at : PrimitiveType → PrimitiveType → Bool
antisym_at a b = implies (le a b && le b a) (same_type a b)

antisym_table : is_all2 antisym_at ≡ true
unfolding antisym_at le lt
antisym_table = refl

-- Types that are each `<=` the other are one type.
pub le_antisym : (a b : PrimitiveType) → le a b ≡ true → le b a ≡ true → a ≡ b
unfolding antisym_at
le_antisym a b h k = (same_type_iff a b).0 (
    implies_elim (le a b && le b a) (same_type a b) (every2_sound antisym_at antisym_table a b)
      (ground arith))

trans_at : PrimitiveType → PrimitiveType → PrimitiveType → Bool
trans_at a b c = implies (not (same_type a boolean) && (le a b && le b c)) (le a c)

trans_table : is_all3 trans_at ≡ true
unfolding trans_at le lt
trans_table = refl

-- The relation `<=` is transitive from every type but `boolean`.
pub le_trans : (a b c : PrimitiveType) → a ≢ boolean → le a b ≡ true → le b c ≡ true → le a c ≡ true
unfolding trans_at
le_trans a b c ne h k =
    implies_elim (not (same_type a boolean) && (le a b && le b c)) (le a c)
      (every3_sound trans_at trans_table a b c) (ground (arith, same_type_iff a boolean))

is_unsigned_int : PrimitiveType → Bool
is_unsigned_int t = is_integer t && not (is_signed_int t)

boolean_at : PrimitiveType → PrimitiveType → Bool
boolean_at u r =
    implies (is_unsigned_int u && (is_real r || is_complex r))
      (le boolean u && (le u r && not (le boolean r)))

boolean_table : is_all2 boolean_at ≡ true
unfolding boolean_at is_unsigned_int le lt
boolean_table = refl

-- From `boolean` it is not: `boolean` is below each unsigned integer type, which is below each real
-- and complex type, and `boolean` is below none of those.
pub le_not_trans :
    (u r : PrimitiveType)
    → is_integer u ≡ true
    → is_signed_int u ≡ false
    → (is_real r || is_complex r) ≡ true
    → (le boolean u ≡ true) × (le u r ≡ true) × (le boolean r ≡ false)
unfolding boolean_at is_unsigned_int
le_not_trans u r int unsigned real =
    let h =
      implies_elim (is_unsigned_int u && (is_real r || is_complex r))
        (le boolean u && (le u r && not (le boolean r))) (every2_sound boolean_at boolean_table u r)
        (ground arith) in
    ground arith

-- The values of two's complement, and those without a sign, with a number of bits.
abbrev pub InTwosComplement : ℕ → ℤ → Type 0
InTwosComplement bits z = (neg_part z ≤ 2 ^ (bits - 1)) × (pos_part z < 2 ^ (bits - 1))

abbrev pub InUnsigned : ℕ → ℤ → Type 0
InUnsigned bits z = (neg_part z ≤ 0) × (pos_part z < 2 ^ bits)

-- The values of an integer type.
abbrev pub InRange : PrimitiveType → ℤ → Type 0
InRange int8 z = InTwosComplement 8 z
InRange uint8 z = InUnsigned 8 z
InRange int16 z = InTwosComplement 16 z
InRange uint16 z = InUnsigned 16 z
InRange int32 z = InTwosComplement 32 z
InRange uint32 z = InUnsigned 32 z
InRange int64 z = InTwosComplement 64 z
InRange uint64 z = InUnsigned 64 z
InRange _ z = ⊥

-- Between integer types `<=` is a promotion that keeps each value.
pub le-InRange :
    (a b : PrimitiveType) (z : ℤ)
    → is_integer a ≡ true
    → is_integer b ≡ true
    → le a b ≡ true
    → InRange a z
    → InRange b z
unfolding le lt
le-InRange int8 int8 z ia ib h r = r
le-InRange a b z ia ib h r = ground arith
