-- ===== src/CppTarget/Buffer.antt =====
-- cpp/cpp_target.cpp and cpp/cpp_from_polyhedral.cpp: the buffer of an infinite array, in the dimension in
-- which the array is infinite. `plan` is what `buffer_analysis` decides for it, and the other functions are
-- the statements that the compiler generates: the index of an access, and the step between two periods.
-- Indices are natural numbers, since an array has no negative index.
pub mod Shift
pub mod Wrap
mod Tests
use arrp.Common.{
  ℕ, ◌+◌, ◌-◌, ◌*◌, ◌%◌, ◌^◌, ltb, leb, ◌==◌, if◌then◌else◌, max, Bool, true, false, not, ◌&&◌,
}
use Prim.Native.Nat.{bit_and}
use arrp.Common.Bits.{log2}

-- The fields of `polyhedral::array` that the analysis reads; `buffer_size` is that of the dimension.
pub record InfiniteArray : Type 0 where
  pub buffer_size : ℕ
  pub period : ℕ
  pub first_period_access : ℕ
  pub last_period_access : ℕ

-- `struct buffer`, in this dimension.
pub record Buffer : Type 0 where
  pub period_offset : ℕ
  pub dimension_size : ℕ
  pub needs_wrapping : Bool
  pub has_phase : Bool
  pub shift_size : ℕ
  pub shift_source : ℕ
  pub shift_period_count : ℕ

-- The items that a period accesses, and those of them that the next period accesses too.
abbrev pub period_size : InfiniteArray → ℕ
period_size a = a.last_period_access + 1 - a.first_period_access

abbrev pub period_overlap_size : InfiniteArray → ℕ
period_overlap_size a = a.last_period_access + 1 - (a.first_period_access + a.period)

-- The floating-point parts of the analysis: `ceil(overlap / (0.1 * period_size))`, and `ceil(log2(size))`
-- as the exponent of a power of two, if the options ask for one.
pub record Rounding : Type 0 where
  pub shift_periods : ℕ → ℕ → ℕ
  pub round_size : ℕ → ℕ

-- A buffer whose data is shifted after `num_periods` periods.
abbrev pub shifting : InfiniteArray → ℕ → Buffer
shifting a num_periods = record {
  period_offset = a.period;
  dimension_size = a.last_period_access + num_periods * a.period + 1;
  needs_wrapping = false;
  has_phase = true;
  shift_size = period_overlap_size a;
  shift_source = a.first_period_access + num_periods * a.period;
  shift_period_count = num_periods;
}

-- A buffer that each period fills anew.
abbrev pub refilled : InfiniteArray → Buffer
refilled a = record {
  period_offset = a.period;
  dimension_size = a.last_period_access + 1 * a.period + 1;
  needs_wrapping = false;
  has_phase = false;
  shift_size = 0;
  shift_source = 0;
  shift_period_count = 1;
}

-- `buffer_analysis` with data shifting, for a buffer of more than one item.
unfoldable pub plan_shift : Rounding → InfiniteArray → Buffer
plan_shift r a =
    if ltb 0 (period_overlap_size a)
    then shifting a (max 1 (r.shift_periods (period_overlap_size a) (period_size a)))
    else refilled a

-- `buffer_analysis` without data shifting, for a buffer of more than one item.
unfoldable pub plan_wrap : Rounding → InfiniteArray → Buffer
plan_wrap r a =
    let size = r.round_size a.buffer_size in
    record {
      period_offset = a.period;
      dimension_size = size;
      needs_wrapping = true;
      has_phase = not (a.period % size == 0);
      shift_size = 0;
      shift_source = 0;
      shift_period_count = 0;
    }

-- `size_is_power_of_two`. (The logarithm of a size of type `int` is rounded down as that of a real number.)
abbrev pub size_is_power_of_two : ℕ → Bool
size_is_power_of_two size = size == 2 ^ log2 size

-- An index within the size: `i & (size - 1)` or `i % size`.
unfoldable pub wrap : ℕ → ℕ → ℕ
wrap size i = if size_is_power_of_two size then bit_and i (size - 1) else i % size

-- The index that `generate_buffer_access` computes in a period, for the phase of the buffer, in a dimension
-- of more than one item. (`index` has the offset of the statement added to it.)
unfoldable pub buffer_index : Buffer → ℕ → ℕ → ℕ
buffer_index b phase index =
    let i = if b.has_phase then index + phase else index in
    if b.needs_wrapping then wrap b.dimension_size i else i

-- The memory of a buffer, place by place, and the phase of the buffer.
pub record State {ℓ} (V : Type ℓ) : Type ℓ where
  pub phase : ℕ
  pub memory : ℕ → V

-- The phase at which the data is shifted.
abbrev pub max_phase : Buffer → ℕ
max_phase b = b.shift_period_count * b.period_offset

-- `std::copy(d + source, d + source + size, d + dest)`. The destination does not stand behind the source,
-- so that each item is read before it can be overwritten.
abbrev pub copied {ℓ} : {V : Type ℓ} → ℕ → ℕ → ℕ → (ℕ → V) → ℕ → V
copied source size dest memory i =
    if leb dest i && ltb i (dest + size) then memory (source + (i - dest)) else memory i

module _ {ℓ} {V : Type ℓ} where
  -- The block that runs when it is time to shift.
  unfoldable pub shift_block : Buffer → State V → State V
  shift_block b s = record {
    phase = 0;
    memory = copied b.shift_source b.shift_size (b.shift_source - max_phase b) s.memory;
  }

  -- The code that `advance_buffers` generates, run after each period.
  unfoldable pub advance : Buffer → State V → State V
  unfolding shift_block
  advance b s =
      if b.has_phase
      then (if ltb 0 b.shift_size
          then (let s' = record s { phase = s.phase + b.period_offset } in
              if leb (max_phase b) s'.phase then shift_block b s' else s')
          else record s { phase = wrap b.dimension_size (s.phase + b.period_offset) })
      else s
