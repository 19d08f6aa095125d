-- ===== src/TypeCheck/Typed.antt =====
-- frontend/type_check.cpp: the errors of the type checker, and the sizes of types.
use arrp.Common.{◌≡◌, refl, List, [], ◌∷◌, Option, none, some}
use arrp.FuncType.{FuncType, scalar_type, array_type, ArraySizeVec}
use arrp.FuncType.ArraySize.{Spreads}

-- What the type checker throws; `assertion` is an assertion that fails, and `stopped` is the end of the
-- compiler in a division by zero.
pub data TypeError : Type 0 where
  function_as_operand size_mismatch unexpected_operand invalid_operands : TypeError
  not_data behind_infinite incompatible_types assertion : TypeError
  not_applicable not_applied_exactly argument_not_scalar argument_not_integer : TypeError
  dimension_not_constant dimension_out_of_bounds : TypeError
  not_a_type invalid_type_name invalid_size negative_size : TypeError
  input_of_function external_not_function external_infinite external_of_function : TypeError
  not_a_function wrong_argument_count argument_mismatch null_type : TypeError
  stopped : TypeError

pub data Typed {ℓ} (A : Type ℓ) : Type ℓ where
  typed : A → Typed A
  rejected : TypeError → Typed A

infixl 1 ◌>>=◌
abbrev pub ◌>>=◌ {ℓ κ} : {T : Type ℓ} {U : Type κ} → Typed T → (T → Typed U) → Typed U
typed t >>= step = step t
rejected error >>= step = rejected error

-- The exception `no_type`, caught.
abbrev pub or_throw {ℓ} : {T : Type ℓ} → Option T → TypeError → Typed T
or_throw (some t) error = typed t
or_throw none error = rejected error

-- The sizes of a type: none for a scalar.
abbrev pub size_of : FuncType → ArraySizeVec
size_of (array_type s e) = s
size_of _ = []

-- The type of a scalar or of an array.
abbrev pub IsValue : FuncType → Type 0
IsValue (scalar_type p) = Unit
IsValue (array_type s e) = Unit
IsValue _ = ⊥

-- The size of each of the types can be spread over the size.
abbrev pub AllSpread : List FuncType → ArraySizeVec → Type 0
AllSpread [] s = Unit
AllSpread (t ∷ ts) s = Spreads (size_of t) s × AllSpread ts s

pub >>=-eq-typed {ℓ κ} :
    {T : Type ℓ} {U : Type κ} (first : Typed T) (step : T → Typed U) {u : U}
    → (first >>= step) ≡ typed u
    → (t : T) × (first ≡ typed t) × (step t ≡ typed u)
>>=-eq-typed (rejected error) step done = cc
>>=-eq-typed (typed t) step done = (t, refl, done)

pub or_throw_elim {ℓ} :
    {A : Type ℓ} (o : Option A) (e : TypeError) {a : A} → or_throw o e ≡ typed a → o ≡ some a
or_throw_elim none e h = cc
or_throw_elim (some x) e h = cc

pub typed-inj {ℓ} : {T : Type ℓ} {t u : T} → typed t ≡ typed u → t ≡ u
typed-inj h = cc
