-- ===== src/CppTarget/Buffer/Shift/Step.antt =====
-- cpp/cpp_target.cpp: with data shifting, the step between two periods.
use arrp.Common.{
  ℕ, ◌+◌, ◌-◌, ◌*◌, ◌≤◌, ◌<◌, ◌≡◌, leb→le, le→leb, ◌⊎◌, inl, inr, sym, ap, subst, ◌∙◌, ltb, leb,
  ltb→lt, lt→ltb, false, Bool-cases, max, arith,
}
use native.Mathlib.Decide.{dec_lt}
use arrp.CppTarget.Buffer.{
  InfiniteArray, Rounding, plan_shift, buffer_index, State, copied, shifting, refilled, shift_block,
  advance, period_overlap_size, period_size,
}
use arrp.CppTarget.Buffer.Shift.{Ready, Complete}

mul_next : (k n p : ℕ) → k < n → n * p ≤ k * p + p → n * p ≡ k * p + p
mul_next k n p h l = grind arith

next_period : (i n p : ℕ) → i + p + n * p ≡ i + (n + 1) * p
next_period i n p = grind arith

mul_succ : (k p : ℕ) → (k + 1) * p ≡ k * p + p
mul_succ k p = grind arith

not_shifted : (k n p : ℕ) → k < n → k * p + p < n * p → k + 1 < n
not_shifted k n p h l = elim (dec_lt (k + 1) n) [
  | yes q ↦ q
  | no q ↦
      let e : n ≡ k + 1 = omega arith in
      absurd (omega (arith, ap (λ (t : ℕ). t * p) e, mul_succ k p))
]

copied_inside {ℓ} :
    {V : Type ℓ} (source size dest i : ℕ) (memory : ℕ → V)
    → dest ≤ i
    → i < dest + size
    → copied source size dest memory i ≡ memory (source + (i - dest))
copied_inside source size dest i memory h k = rw (le→leb dest i h, lt→ltb i (dest + size) k)

module _ (a : InfiniteArray) (num : ℕ) {V : Type 0} (content : ℕ → V) where
  -- Behind a period, no shift is due: the phase grows, and the data stays.
  advance-grow :
      {n : ℕ} {s : State V}
      → Complete a (shifting a num) content n s
      → s.phase + a.period < num * a.period
      → Ready a (shifting a num) content (n + 1) (record s { phase = s.phase + a.period })
  unfolding buffer_index
  advance-grow {n} {s} done less = record {
    periods = done.periods + 1;
    phase = omega (arith, done.phase, mul_succ done.periods a.period);
    early = not_shifted done.periods num a.period done.early (omega (arith, done.phase));
    kept = λ i l h.
        ap s.memory (omega arith)
        ∙ done.all (i + a.period) (omega arith) h
        ∙ ap content (next_period i n a.period);
  }

  -- A shift is due: what the next period needs goes to where it looks for it at phase 0.
  advance-shift :
      {n : ℕ} {s : State V}
      → Complete a (shifting a num) content n s
      → num * a.period ≤ s.phase + a.period
      → Ready a (shifting a num) content (n + 1) (shift_block (shifting a num) s)
  unfolding buffer_index shift_block
  advance-shift {n} {s} done due = record {
    periods = 0;
    phase = omega arith;
    early = omega (arith, done.early);
    kept = λ i l h.
        moved i l h
        ∙ ap s.memory (from i l)
        ∙ done.all (i + a.period) (omega arith) h
        ∙ ap content (next_period i n a.period);
  }
    where
      same : num * a.period ≡ s.phase + a.period
      same = omega (
        arith,
        mul_next done.periods num a.period done.early (omega (arith, done.phase)),
        done.phase,
      )

      from :
          (i : ℕ)
          → a.first_period_access ≤ i
          → a.first_period_access + num * a.period + (i - a.first_period_access)
            ≡ i + a.period + s.phase
      from i l = omega (arith, same)

      moved :
          (i : ℕ)
          → a.first_period_access ≤ i
          → i + a.period ≤ a.last_period_access
          → copied
              (a.first_period_access + num * a.period)
              (period_overlap_size a)
              (a.first_period_access + num * a.period - num * a.period)
              s.memory
              (i + 0)
            ≡ s.memory (a.first_period_access + num * a.period + (i - a.first_period_access))
      moved i l h =
          copied_inside (a.first_period_access + num * a.period) (period_overlap_size a)
            (a.first_period_access + num * a.period - num * a.period) (i + 0) s.memory (omega arith)
            (omega arith)
          ∙ ap (λ k. s.memory (a.first_period_access + num * a.period + k)) (omega arith)

shifting-Ready :
    (a : InfiniteArray) (num : ℕ) {V : Type 0} (content : ℕ → V) {n : ℕ} {s : State V}
    → 0 < period_overlap_size a
    → Complete a (shifting a num) content n s
    → Ready a (shifting a num) content (n + 1) (advance (shifting a num) s)
unfolding advance
shifting-Ready a num content {n} {s} overlap done =
    rw (lt→ltb 0 (period_overlap_size a) overlap)
      (elim (Bool-cases (leb (num * a.period) (s.phase + a.period))) [
        | inl due ↦
            rw due
              (advance-shift a num content done (leb→le (num * a.period) (s.phase + a.period) due))
        | inr early ↦ rw early (
            advance-grow a num content done
              (lt_of_not_leb (num * a.period) (s.phase + a.period) early))
      ])
  where
    lt_of_not_leb : (x y : ℕ) → leb x y ≡ false → y < x
    lt_of_not_leb x y h = ground arith

refilled-Ready :
    (a : InfiniteArray) {V : Type 0} (content : ℕ → V) {n : ℕ} {s : State V}
    → period_overlap_size a ≡ 0
    → Complete a (refilled a) content n s
    → Ready a (refilled a) content (n + 1) (advance (refilled a) s)
unfolding advance
refilled-Ready a content overlap done = record {
  periods = done.periods;
  phase = done.phase;
  early = done.early;
  kept = λ i l h. absurd (omega arith);
}

-- A plan shifts where periods overlap, after one period at least.
pub plan_cases :
    (r : Rounding) (a : InfiniteArray)
    → ((num : ℕ) × (plan_shift r a ≡ shifting a num) × (0 < num) × (0 < period_overlap_size a))
      ⊎ ((plan_shift r a ≡ refilled a) × (period_overlap_size a ≡ 0))
unfolding plan_shift
plan_cases r a = elim (Bool-cases (ltb 0 (period_overlap_size a))) [
  | inl e ↦ inl (
    max 1 (r.shift_periods (period_overlap_size a) (period_size a)),
    rw e,
    omega arith,
    ltb→lt 0 (period_overlap_size a) e,
  )
  | inr e ↦ inr (rw e, zero_of (period_overlap_size a) e)
]
  where
    zero_of : (k : ℕ) → ltb 0 k ≡ false → k ≡ 0
    zero_of k h = ground arith

-- If a period leaves all items that it accesses in their places, the step behind it, with data shifting,
-- leaves the state ready for the next period: what that one shares with this one is where it looks for it.
pub advance-Ready :
    (r : Rounding) (a : InfiniteArray) {V : Type 0} (content : ℕ → V) {n : ℕ} {s : State V}
    → Complete a (plan_shift r a) content n s
    → Ready a (plan_shift r a) content (n + 1) (advance (plan_shift r a) s)
advance-Ready r a content {n} {s} done = elim (plan_cases r a) [
  | inl (num, e, _, overlap) ↦
      subst (λ b. Ready a b content (n + 1) (advance b s)) (sym e)
        (shifting-Ready a num content overlap (subst (λ b. Complete a b content n s) e done))
  | inr (e, none_left) ↦
      subst (λ b. Ready a b content (n + 1) (advance b s)) (sym e)
        (refilled-Ready a content none_left (subst (λ b. Complete a b content n s) e done))
]
