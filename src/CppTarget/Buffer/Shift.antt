-- ===== src/CppTarget/Buffer/Shift.antt =====
-- cpp/cpp_target.cpp: what a buffer with data shifting holds before and behind a period.
pub mod Step
pub mod Trace
use arrp.Common.{ℕ, ◌+◌, ◌-◌, ◌*◌, ◌≤◌, ◌<◌, ◌≡◌, ◌⊎◌, inl, inr, ap, ◌∙◌, arith}
use arrp.CppTarget.Buffer.{InfiniteArray, Buffer, buffer_index, State}

module _ (a : InfiniteArray) (b : Buffer) {V : Type 0} (content : ℕ → V) where
  -- Where a period looks for the item at an index.
  abbrev pub place : State V → ℕ → ℕ
  place s i = buffer_index b s.phase i

  -- The state before period `n`, for an array whose item at index `i` is `content i`: the phase is a
  -- number of periods below that of a shift, and each item that the last period and this one access is
  -- where this period looks for it.
  pub record Ready (n : ℕ) (s : State V) : Type 0 where
    pub periods : ℕ
    pub phase : s.phase ≡ periods * a.period
    pub early : periods < b.shift_period_count
    pub kept :
        (i : ℕ)
        → a.first_period_access ≤ i
        → i + a.period ≤ a.last_period_access
        → s.memory (place s i) ≡ content (i + n * a.period)

  -- What period `n` leaves: each item that it accesses is in its place.
  pub record Complete (n : ℕ) (s : State V) : Type 0 where
    pub periods : ℕ
    pub phase : s.phase ≡ periods * a.period
    pub early : periods < b.shift_period_count
    pub all :
        (i : ℕ)
        → a.first_period_access ≤ i
        → i ≤ a.last_period_access
        → s.memory (place s i) ≡ content (i + n * a.period)

  -- The code of period `n` runs from a state to another: of each item that it accesses, it writes the value,
  -- or finds it as the last period has left it.
  pub record Runs (n : ℕ) (s t : State V) : Type 0 where
    pub phase : t.phase ≡ s.phase
    pub access :
        (i : ℕ)
        → a.first_period_access ≤ i
        → i ≤ a.last_period_access
        → (t.memory (place s i) ≡ content (i + n * a.period))
          ⊎ ((i + a.period ≤ a.last_period_access) × (t.memory (place s i) ≡ s.memory (place s i)))

  pub Runs-Complete : {n : ℕ} {s t : State V} → Ready n s → Runs n s t → Complete n t
  Runs-Complete {n} {s} {t} ready runs = record {
    periods = ready.periods;
    phase = runs.phase ∙ ready.phase;
    early = ready.early;
    all = λ i l h.
        ap (λ p. t.memory (buffer_index b p i)) runs.phase
        ∙ elim (runs.access i l h) [ inl e ↦ e | inr (k, e) ↦ e ∙ ready.kept i l k ];
  }
