-- ===== src/FuncType/Equality/Decides.antt =====
-- common/func_types.hpp: `operator==` and `operator<=` of the types, and equality.
use arrp.Common.{
  ℕ, suc, ◌==◌, ◌≡◌, ◌↔◌, refl, ap, ap₂, Bool, true, false, [], ◌∷◌, Option, none, some, arith,
  ==_iff, and_elim, ◌≢◌,
}
use arrp.Common.Partial.{some_inj}
use arrp.Primitive.{PrimitiveType, same_type, same_type_iff}
use arrp.Primitive.Order.{le, le_refl, le_antisym}
use arrp.FuncType.{
  FuncType, TypePtr, TypePtrs, scalar_type, array_type, function_type, meta_type, null, to, nil,
  cons, ArraySizeVec,
}
use arrp.FuncType.Equality.{
  same, same_ptr, same_target, same_params, same_size, param_count, subtype, and_then, IsConcrete,
  IsConcretePtr, IsConcreteTarget, AreConcrete,
}

and_then_elim : (a b : Option Bool) → and_then a b ≡ some true → (a ≡ some true) × (b ≡ some true)
and_then_elim a b h = ground arith

and_then_total : (a b : Option Bool) → a ≢ none → (a ≡ some true → b ≢ none) → and_then a b ≢ none
and_then_total none b h k e = h e
and_then_total (some true) b h k e = k refl e
and_then_total (some false) b h k e = cc

same_size_sound : (s t : ArraySizeVec) → same_size s t ≡ true → s ≡ t
unfolding same_size
same_size_sound [] [] h = refl
same_size_sound [] (y ∷ ys) h = cc
same_size_sound (x ∷ xs) [] h = cc
same_size_sound (x ∷ xs) (y ∷ ys) h = ap₂ ◌∷◌ (ground arith) (same_size_sound xs ys (ground arith))

same_size_refl : (s : ArraySizeVec) → same_size s s ≡ true
unfolding same_size
same_size_refl [] = refl
same_size_refl (x ∷ xs) = ground (arith, same_size_refl xs)

same_type_refl : (t : PrimitiveType) → same_type t t ≡ true
same_type_refl t = (same_type_iff t t).1 refl

pred_same : (a b : ℕ) → (suc a == suc b) ≡ true → (a == b) ≡ true
pred_same a b h = ground arith

mutual
  unfolding same

  sound : (a b : FuncType) → same a b ≡ some true → a ≡ b
  sound (scalar_type p) (scalar_type q) h = ap scalar_type ((same_type_iff p q).0 (some_inj h))
  sound (array_type s e) (array_type t f) h =
      let (sizes, elements) = and_elim (same_size s t) (same_type e f) (some_inj h) in
      ap₂ array_type (same_size_sound s t sizes) ((same_type_iff e f).0 elements)
  sound (function_type ps v) (function_type qs w) h =
      let (count, rest) = and_then_elim (some (param_count ps == param_count qs)) _ h in
      let (params, value) = and_then_elim (same_params ps qs) (same_ptr v w) rest in
      ap₂ function_type (sound_params ps qs (some_inj count) params) (sound_ptr v w value)
  sound (meta_type c) (meta_type d) h = ap meta_type (sound_target c d h)
  sound a b h = cc

  sound_ptr : (a b : TypePtr) → same_ptr a b ≡ some true → a ≡ b
  sound_ptr null null h = refl
  sound_ptr (to a) (to b) h = ap to (sound a b h)
  sound_ptr a b h = cc

  sound_target : (a b : TypePtr) → same_target a b ≡ some true → a ≡ b
  sound_target (to a) (to b) h = ap to (sound a b h)
  sound_target a b h = cc

  sound_params :
      (ps qs : TypePtrs)
      → (param_count ps == param_count qs) ≡ true
      → same_params ps qs ≡ some true
      → ps ≡ qs
  sound_params nil nil c h = refl
  sound_params nil (cons q qs) c h = ground arith
  sound_params (cons p ps) nil c h = cc
  sound_params (cons p ps) (cons q qs) c h =
      let (first, rest) = and_then_elim (same_ptr p q) (same_params ps qs) h in
      ap₂ cons (sound_ptr p q first)
        (sound_params ps qs (pred_same (param_count ps) (param_count qs) c) rest)

mutual
  unfolding same

  total : (a b : FuncType) → IsConcrete a → IsConcrete b → same a b ≢ none
  total (scalar_type p) (scalar_type q) h k = λ e. cc
  total (array_type s e) (array_type t f) h k = λ e'. cc
  total (function_type ps v) (function_type qs w) h k =
      and_then_total (some (param_count ps == param_count qs)) _ (λ e. cc)
        (λ c.
          and_then_total (same_params ps qs) (same_ptr v w)
            (total_params ps qs (some_inj c) h.0 k.0) (λ _. total_ptr v w h.1 k.1))
  total (meta_type c) (meta_type d) h k = total_target c d h k
  total a b h k = λ e. cc

  total_ptr : (a b : TypePtr) → IsConcretePtr a → IsConcretePtr b → same_ptr a b ≢ none
  total_ptr null null h k e = cc
  total_ptr (to a) (to b) h k e = total a b h k e
  total_ptr a b h k e = cc

  total_target : (a b : TypePtr) → IsConcreteTarget a → IsConcreteTarget b → same_target a b ≢ none
  total_target null b h k e = absurd h
  total_target (to a) null h k e = absurd k
  total_target (to a) (to b) h k e = total a b h k e

  total_params :
      (ps qs : TypePtrs)
      → (param_count ps == param_count qs) ≡ true
      → AreConcrete ps
      → AreConcrete qs
      → same_params ps qs ≢ none
  total_params nil qs c h k = λ e. cc
  total_params (cons p ps) nil c h k = ground arith
  total_params (cons p ps) (cons q qs) c h k =
      and_then_total (same_ptr p q) (same_params ps qs) (total_ptr p q h.0 k.0)
        (λ _. total_params ps qs (pred_same (param_count ps) (param_count qs) c) h.1 k.1)

mutual
  unfolding same

  complete : (a : FuncType) → IsConcrete a → same a a ≡ some true
  complete (scalar_type p) h = ap some (same_type_refl p)
  complete (array_type s e) h = rw (same_size_refl s, same_type_refl e)
  complete (function_type ps v) h = rw (
    (==_iff (param_count ps) (param_count ps)).1 refl,
    complete_params ps h.0,
    complete_ptr v h.1,
  )
  complete (meta_type c) h = complete_target c h

  complete_ptr : (a : TypePtr) → IsConcretePtr a → same_ptr a a ≡ some true
  complete_ptr null h = refl
  complete_ptr (to a) h = complete a h

  complete_target : (a : TypePtr) → IsConcreteTarget a → same_target a a ≡ some true
  complete_target null h = absurd h
  complete_target (to a) h = complete a h

  complete_params : (ps : TypePtrs) → AreConcrete ps → same_params ps ps ≡ some true
  complete_params nil h = refl
  complete_params (cons p ps) h = rw (complete_ptr p h.0, complete_params ps h.1)

-- Between types without a null inside a meta type `==` reads no null pointer, and decides equality.
pub same_iff :
    (a b : FuncType)
    → IsConcrete a
    → IsConcrete b
    → (same a b ≢ none) × ((same a b ≡ some true) ↔ (a ≡ b))
same_iff a b h k = (total a b h k, (sound a b, λ e. rw (← e) (complete a h)))

pub subtype_refl : (a : FuncType) → IsConcrete a → subtype a a ≡ some true
unfolding subtype
subtype_refl (scalar_type p) h = ap some (le_refl p)
subtype_refl (array_type s e) h = rw (same_size_refl s, le_refl e)
subtype_refl a h = complete a h

subtype_antisym : (a b : FuncType) → subtype a b ≡ some true → subtype b a ≡ some true → a ≡ b
unfolding subtype
subtype_antisym (scalar_type p) (scalar_type q) h k =
    ap scalar_type (le_antisym p q (some_inj h) (some_inj k))
subtype_antisym (array_type s e) (array_type t f) h k =
    let (sizes, below) = and_elim (same_size s t) (le e f) (some_inj h) in
    let (_, above) = and_elim (same_size t s) (le f e) (some_inj k) in
    ap₂ array_type (same_size_sound s t sizes) (le_antisym e f below above)
subtype_antisym (scalar_type p) b h k = cc
subtype_antisym (array_type s e) b h k = cc
subtype_antisym a b h k = sound a b h

-- Two types without a null inside a meta type are subtypes of each other exactly when they are one.
subtype_both_iff :
    (a b : FuncType)
    → IsConcrete a
    → IsConcrete b
    → ((subtype a b ≡ some true) × (subtype b a ≡ some true)) ↔ (a ≡ b)
subtype_both_iff a b h k = (
  λ both. subtype_antisym a b both.0 both.1,
  λ e. (rw (← e) (subtype_refl a h), rw (← e) (subtype_refl a h)),
)
