-- ===== src/CppTarget/Buffer/Wrap.antt =====
-- cpp/cpp_target.cpp: without data shifting, the phase and the places of the items.
use arrp.Common.{
  ℕ, zero, suc, ◌+◌, ◌*◌, ◌%◌, ◌^◌, ◌-◌, refl, ◌≡◌, inl, inr, sym, ap, ◌∙◌, ◌==◌, ==_iff, true,
  false, Bool-cases, arith,
}
use Prim.Native.Nat.{bit_and}
use arrp.Common.Bits.{log2, bit_and-mask}
use native.Mathlib.Nat.{mod-add-mod, add-mod-mod}
use arrp.CppTarget.Buffer.{
  InfiniteArray, Buffer, Rounding, plan_wrap, wrap, size_is_power_of_two, buffer_index, State,
  advance,
}

-- Both ways to wrap an index take the remainder of a division by the size.
wrap-mod : (size i : ℕ) → wrap size i ≡ i % size
unfolding wrap
wrap-mod size i = elim (Bool-cases (size_is_power_of_two size)) [
  | inl e ↦ rw e (masked (log2 size) ((==_iff size (2 ^ log2 size)).0 e))
  | inr e ↦ rw e refl
]
  where
    masked : (k : ℕ) → size ≡ 2 ^ k → bit_and i (size - 1) ≡ i % size
    masked k h = rw h (bit_and-mask k i)

-- The state behind `n` periods. (What the periods write does not touch the phase.)
pub iterate {ℓ} : {V : Type ℓ} → Buffer → ℕ → State V → State V
iterate b zero s = s
iterate b (suc n) s = advance b (iterate b n s)

-- A period that is a multiple of the size leaves the place of an index as it is.
multiple : (size p n i : ℕ) → p % size ≡ 0 → (i + n * p) % size ≡ i % size
multiple size p zero i h = ap (λ k. k % size) (omega arith)
multiple size p (suc n) i h =
    ap (λ k. k % size) (split n i p)
    ∙ sym (add-mod-mod (i + n * p) p size)
    ∙ ap (λ k. (i + n * p + k) % size) h
    ∙ ap (λ k. k % size) (add_zero (i + n * p))
    ∙ multiple size p n i h
  where
    split : (k j q : ℕ) → j + suc k * q ≡ j + k * q + q
    split k j q = grind arith

    add_zero : (k : ℕ) → k + 0 ≡ k
    add_zero k = omega arith

index-still :
    (r : Rounding) (a : InfiniteArray) (phase i : ℕ)
    → (a.period % r.round_size a.buffer_size == 0) ≡ true
    → buffer_index (plan_wrap r a) phase i ≡ i % r.round_size a.buffer_size
unfolding buffer_index plan_wrap
index-still r a phase i e = rw e (wrap-mod (r.round_size a.buffer_size) i)

index-moved :
    (r : Rounding) (a : InfiniteArray) (phase i : ℕ)
    → (a.period % r.round_size a.buffer_size == 0) ≡ false
    → buffer_index (plan_wrap r a) phase i ≡ (i + phase) % r.round_size a.buffer_size
unfolding buffer_index plan_wrap
index-moved r a phase i e = rw e (wrap-mod (r.round_size a.buffer_size) (i + phase))

module _ (r : Rounding) (a : InfiniteArray) {V : Type 0} where
  phase-advance :
      (s : State V)
      → (a.period % r.round_size a.buffer_size == 0) ≡ false
      → (advance (plan_wrap r a) s).phase ≡ (s.phase + a.period) % r.round_size a.buffer_size
  unfolding advance plan_wrap
  phase-advance s moves = rw moves (wrap-mod (r.round_size a.buffer_size) (s.phase + a.period))

  phase-iterate :
      (n : ℕ) (s : State V)
      → s.phase ≡ 0
      → (a.period % r.round_size a.buffer_size == 0) ≡ false
      → (iterate (plan_wrap r a) n s).phase % r.round_size a.buffer_size
        ≡ (n * a.period) % r.round_size a.buffer_size
  unfolding iterate
  phase-iterate zero s start moves =
      ap (λ k. k % r.round_size a.buffer_size) (start ∙ sym (zero_mul a.period))
    where
      zero_mul : (p : ℕ) → 0 * p ≡ 0
      zero_mul p = omega arith
  phase-iterate (suc n) s start moves =
      let size = r.round_size a.buffer_size in
      let phase = (iterate (plan_wrap r a) n s).phase in
      ap (λ k. k % size) (phase-advance (iterate (plan_wrap r a) n s) moves)
      ∙ mod_mod (phase + a.period) size
      ∙ sym (mod-add-mod phase size a.period)
      ∙ ap (λ k. (k + a.period) % size) (phase-iterate n s start moves)
      ∙ mod-add-mod (n * a.period) size a.period
      ∙ ap (λ k. k % size) (mul_suc n a.period)
    where
      mul_suc : (k p : ℕ) → k * p + p ≡ suc k * p
      mul_suc k p = grind arith

      mod_mod : (k m : ℕ) → k % m % m ≡ k % m
      mod_mod k m =
          ap (λ t. t % m) (sym (add_zero (k % m)))
          ∙ mod-add-mod k m 0
          ∙ ap (λ t. t % m) (add_zero k)
        where
          add_zero : (t : ℕ) → t + 0 ≡ t
          add_zero t = omega arith

  -- From a state with phase 0, in period `n` the item at index `i` stands at the place of its index in the
  -- infinite array, which is `i + n * period`, modulo the size of the buffer, with a phase and without
  -- one, and whether it is computed as a remainder or with a mask.
  pub buffer_index-wrap :
      (n i : ℕ) (s : State V)
      → s.phase ≡ 0
      → buffer_index (plan_wrap r a) (iterate (plan_wrap r a) n s).phase i
        ≡ (i + n * a.period) % r.round_size a.buffer_size
  buffer_index-wrap n i s start =
      let phase = (iterate (plan_wrap r a) n s).phase in
      let size = r.round_size a.buffer_size in
      elim (Bool-cases (a.period % size == 0)) [
        | inl still ↦
            index-still r a phase i still
            ∙ sym (multiple size a.period n i ((==_iff (a.period % size) 0).0 still))
        | inr moves ↦
            index-moved r a phase i moves
            ∙ sym (add-mod-mod i phase size)
            ∙ ap (λ k. (i + k) % size) (phase-iterate n s start moves)
            ∙ add-mod-mod i (n * a.period) size
      ]
