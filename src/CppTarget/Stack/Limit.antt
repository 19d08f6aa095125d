-- ===== src/CppTarget/Stack/Limit.antt =====
-- cpp/cpp_target.cpp: the limit of the stack.
use arrp.Common.{
  ℕ, ◌*◌, sym, ◌∙◌, ◌+◌, ◌<◌, ◌≤◌, ◌≡◌, ◌⊎◌, inl, inr, refl, ap, subst, ltb, ltb→lt, true, false,
  Bool-cases, List, [], ◌∷◌, ◌++◌, some, arith,
}
use arrp.Common.Partial.{>>=-eq-some, some_inj}
use native.Mathlib.Nat.{mul-le-mul_left}
use arrp.Primitive.{
  PrimitiveType, undefined, boolean, int8, uint8, int16, uint16, int32, uint32, int64, uint64,
  real32, real64, complex32, complex64, infinity,
}
use arrp.CppTarget.Stack.{
  volume, size_for, Candidate, separate, sort, mem_size, allot, place_buffers,
}

-- The bytes that an item of a type takes.
abbrev pub bytes : PrimitiveType → ℕ
bytes boolean = 1
bytes int8 = 1
bytes uint8 = 1
bytes int16 = 2
bytes uint16 = 2
bytes int32 = 4
bytes uint32 = 4
bytes int64 = 8
bytes uint64 = 8
bytes real32 = 4
bytes real64 = 8
bytes complex32 = 2 * 4
bytes complex64 = 2 * 8
bytes _ = 0

-- How the choice weighs an item: by its bytes where it is an integer, by its bits where it is a real or a complex
-- number, and a `boolean` by four.
abbrev pub weight : PrimitiveType → ℕ
weight boolean = 4
weight real32 = 8 * bytes real32
weight real64 = 8 * bytes real64
weight complex32 = 8 * bytes complex32
weight complex64 = 8 * bytes complex64
weight t = bytes t

-- What the buffers have together, in a measure of items.
abbrev pub total : (PrimitiveType → ℕ) → List Candidate → ℕ
total measure [] = 0
total measure (c ∷ cs) = volume c.dimension_size * measure c.type + total measure cs

size_for-weight : (t : PrimitiveType) {n : ℕ} → size_for t ≡ some n → n ≡ weight t
unfolding size_for
size_for-weight undefined h = cc
size_for-weight infinity h = cc
size_for-weight t h = sym (some_inj h)

mem_size-weight :
    (c : Candidate) {n : ℕ} → mem_size c ≡ some n → n ≡ volume c.dimension_size * weight c.type
mem_size-weight c h =
    let (m, e, same) = >>=-eq-some (size_for c.type) _ h in
    sym (some_inj same) ∙ ap (λ k. volume c.dimension_size * k) (size_for-weight c.type e)

bytes-le : (t : PrimitiveType) → bytes t ≤ weight t
bytes-le t = ground arith

total-bytes : (cs : List Candidate) → total bytes cs ≤ total weight cs
total-bytes [] = omega arith
total-bytes (c ∷ cs) =
    omega (arith, total-bytes cs, mul-le-mul_left (volume c.dimension_size) (bytes-le c.type))

-- Each of the buffers that could be on the stack would exceed the limit beside those that take `taken`.
abbrev pub NoneFits : ℕ → List Candidate → Type 0
NoneFits taken [] = Unit
NoneFits taken (c ∷ cs) =
    ((c.inter_period_dependency ≡ true) ⊎ (1024 ≤ taken + volume c.dimension_size * weight c.type))
    × NoneFits taken cs

NoneFits-append :
    (taken : ℕ) (cs ds : List Candidate)
    → NoneFits taken cs
    → NoneFits taken ds
    → NoneFits taken (cs ++ ds)
NoneFits-append taken [] ds h k = k
NoneFits-append taken (c ∷ cs) ds h k = (h.0, NoneFits-append taken cs ds h.1 k)

separate-NoneFits : (taken : ℕ) (cs : List Candidate) → NoneFits taken (separate cs).0
unfolding separate
separate-NoneFits taken [] = tt
separate-NoneFits taken (c ∷ cs) = elim (Bool-cases c.inter_period_dependency) [
  | inl e ↦ rw e (inl refl, separate-NoneFits taken cs)
  | inr e ↦ rw e (separate-NoneFits taken cs)
]

allot_lem :
    (stack_size : ℕ) (cs : List Candidate) (r : List Candidate × List Candidate)
    → stack_size < 1024
    → allot stack_size cs ≡ some r
    → (stack_size + total weight r.0 < 1024) × NoneFits (stack_size + total weight r.0) r.1
unfolding allot
allot_lem stack_size [] r below h =
    subst
      (λ q. (stack_size + total weight q.0 < 1024) × NoneFits (stack_size + total weight q.0) q.1)
      (some_inj h) (omega arith, tt)
allot_lem stack_size (c ∷ cs) r below h =
    let (size, e, h') = >>=-eq-some (mem_size c) _ h in
    elim (Bool-cases (ltb (stack_size + size) 1024)) [
      | inl fits ↦
          let (q, eq, same) = >>=-eq-some (allot (stack_size + size) cs) _ (rw fits at h') in
          let (less, none_fits) =
            allot_lem (stack_size + size) cs q (ltb→lt (stack_size + size) 1024 fits) eq in
          subst
            (λ q.
              (stack_size + total weight q.0 < 1024) × NoneFits (stack_size + total weight q.0) q.1)
            (some_inj same) (taken size q e less none_fits)
      | inr full ↦
          let (q, eq, same) = >>=-eq-some (allot stack_size cs) _ (rw full at h') in
          let (less, none_fits) = allot_lem stack_size cs q below eq in
          subst
            (λ q.
              (stack_size + total weight q.0 < 1024) × NoneFits (stack_size + total weight q.0) q.1)
            (some_inj same) (less, (inr (too_big size q e full), none_fits))
    ]
  where
    taken :
        (size : ℕ) (q : List Candidate × List Candidate)
        → mem_size c ≡ some size
        → stack_size + size + total weight q.0 < 1024
        → NoneFits (stack_size + size + total weight q.0) q.1
        → (stack_size + total weight (c ∷ q.0) < 1024)
          × NoneFits (stack_size + total weight (c ∷ q.0)) q.1
    taken size q e less none_fits =
        let sum : stack_size + size + total weight q.0 ≡ stack_size + total weight (c ∷ q.0) =
          omega (arith, mem_size-weight c e) in
        (subst (λ k. k < 1024) sum less, subst (λ k. NoneFits k q.1) sum none_fits)

    too_big :
        (size : ℕ) (q : List Candidate × List Candidate)
        → mem_size c ≡ some size
        → ltb (stack_size + size) 1024 ≡ false
        → 1024 ≤ stack_size + total weight q.0 + volume c.dimension_size * weight c.type
    too_big size q e full = omega (arith, mem_size-weight c e, at_least (stack_size + size) full)
      where
        at_least : (k : ℕ) → ltb k 1024 ≡ false → 1024 ≤ k
        at_least k f = ground arith

placed :
    (arrays stack memory : List Candidate)
    → place_buffers arrays ≡ some (stack, memory)
    → (total weight stack < 1024) × NoneFits (total weight stack) memory
unfolding place_buffers
placed arrays stack memory h =
    let (q, e, same) = >>=-eq-some (allot 0 (sort (separate arrays).1)) _ h in
    let (less, none_fits) = allot_lem 0 (sort (separate arrays).1) q (omega arith) e in
    subst (λ r. (total weight r.0 < 1024) × NoneFits (total weight r.0) r.1) (some_inj same)
      (
        omega arith,
        NoneFits-append (total weight q.0) (separate arrays).0 q.1
            (separate-NoneFits (total weight q.0) arrays)
            (subst (λ k. NoneFits k q.1) (zero_add (total weight q.0)) none_fits),
      )
  where
    zero_add : (k : ℕ) → 0 + k ≡ k
    zero_add k = omega arith

-- If all sizes are known, the buffers on the stack take less than 1024 bytes together, and weigh less than
-- that, where integers weigh their bytes, real and complex numbers their bits, and a `boolean` four; and each of
-- the buffers in memory either has to be there, because its items live from period to period, or would bring
-- the weight of those on the stack to 1024 or more.
pub place_buffers_lem :
    (arrays stack memory : List Candidate)
    → place_buffers arrays ≡ some (stack, memory)
    → (total bytes stack < 1024)
      × (total weight stack < 1024)
      × NoneFits (total weight stack) memory
place_buffers_lem arrays stack memory h =
    let (light, none_fits) = placed arrays stack memory h in
    (omega (arith, total-bytes stack), light, none_fits)
