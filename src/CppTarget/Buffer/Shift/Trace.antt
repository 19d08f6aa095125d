-- ===== src/CppTarget/Buffer/Shift/Trace.antt =====
-- cpp/cpp_target.cpp: with data shifting, any number of periods, and the places that they access.
use arrp.Common.{ℕ, suc, ◌+◌, ◌*◌, ◌≤◌, ◌<◌, ◌≡◌, inl, inr, sym, subst, arith}
use arrp.CppTarget.Buffer.{InfiniteArray, Rounding, plan_shift, buffer_index, State, advance}
use arrp.CppTarget.Buffer.Shift.{Ready, Complete, Runs, Runs-Complete}
use arrp.CppTarget.Buffer.Shift.Step.{advance-Ready, plan_cases}

-- The states in which a period starts: the first one, and the state behind the step after a period.
pub data Starts (r : Rounding) (a : InfiniteArray) {V : Type 0} (content : ℕ → V)
    : ℕ → State V → Type 0 where
  first : {s : State V} → Ready a (plan_shift r a) content 0 s → Starts r a content 0 s
  next :
      {n : ℕ} {s t : State V}
      → Starts r a content n s
      → Runs a (plan_shift r a) content n s t
      → Starts r a content (suc n) (advance (plan_shift r a) t)

Starts-Ready :
    (r : Rounding) (a : InfiniteArray) {V : Type 0} (content : ℕ → V) {n : ℕ} {s : State V}
    → Starts r a content n s
    → Ready a (plan_shift r a) content n s
Starts-Ready r a content (first h) = h
Starts-Ready r a content (next {n} {s} {t} before runs) =
    subst (λ k. Ready a (plan_shift r a) content k (advance (plan_shift r a) t)) (add_one n)
      (advance-Ready r a content
        (Runs-Complete a (plan_shift r a) content (Starts-Ready r a content before) runs))
  where
    add_one : (k : ℕ) → k + 1 ≡ suc k
    add_one k = omega arith

-- Let a buffer with data shifting start in a state that is ready for period 0, and let each period, for
-- each item that it accesses, write the value or, if the period before it accesses the item too, leave
-- what it finds. Then, however many periods have run, each period starts in a state where what it shares
-- with the one before is in the places where it looks for it, and leaves all items that it accesses in
-- their places.
pub periods_access :
    (r : Rounding) (a : InfiniteArray) {V : Type 0} (content : ℕ → V) {n : ℕ} {s t : State V}
    → Starts r a content n s
    → Runs a (plan_shift r a) content n s t
    → Ready a (plan_shift r a) content n s × Complete a (plan_shift r a) content n t
periods_access r a content starts runs =
    let ready = Starts-Ready r a content starts in
    (ready, Runs-Complete a (plan_shift r a) content ready runs)

bounded_place :
    (a : InfiniteArray) (num k i phase : ℕ)
    → phase ≡ k * a.period
    → k < num
    → i ≤ a.last_period_access
    → i + phase < a.last_period_access + num * a.period + 1
bounded_place a num k i phase e l h = omega (arith, e, below k num a.period l)
  where
    below : (x y p : ℕ) → x < y → x * p ≤ y * p
    below x y p q = grind arith

-- In a state that is ready for a period, with data shifting, the place of each index up to the last one
-- that the period accesses is within the buffer.
pub place_in_bounds :
    (r : Rounding) (a : InfiniteArray) {V : Type 0} (content : ℕ → V) {n : ℕ} {s : State V} (i : ℕ)
    → Ready a (plan_shift r a) content n s
    → i ≤ a.last_period_access
    → buffer_index (plan_shift r a) s.phase i < (plan_shift r a).dimension_size
unfolding buffer_index
place_in_bounds r a content {n} {s} i ready h = elim (plan_cases r a) [
  | inl (num, e, _, _) ↦
      subst (λ b. buffer_index b s.phase i < b.dimension_size) (sym e)
        (bounded_place a num ready.periods i s.phase ready.phase
          (subst (λ b. ready.periods < b.shift_period_count) e ready.early) h)
  | inr (e, _) ↦ subst (λ b. buffer_index b s.phase i < b.dimension_size) (sym e) (omega arith)
]
