-- ===== src/CppTarget/Buffer/Tests.antt =====
-- The theorems on the buffers of infinite arrays, on an array of which a period reads the items 0, 1 and 2
-- and moves on by one item, so that two items are kept.
use arrp.Common.{ℕ, ◌+◌, ◌*◌, ◌%◌, ◌<◌, ◌≡◌, inl, refl, arith}
use arrp.CppTarget.Buffer.{
  InfiniteArray, Rounding, plan_shift, plan_wrap, wrap, buffer_index, State, advance,
}
use arrp.CppTarget.Buffer.Shift.{Ready, Complete, Runs}
use arrp.CppTarget.Buffer.Shift.Trace.{first, next, periods_access, place_in_bounds}
use arrp.CppTarget.Buffer.Wrap.{iterate, buffer_index-wrap}

abbrev window : InfiniteArray
window = record { buffer_size = 3; period = 1; first_period_access = 0; last_period_access = 2 }

-- `ceil(2 / 0.3)` periods, and the next power of two above 3.
abbrev rounded : Rounding
rounded = record { shift_periods = λ overlap size. 7; round_size = λ size. 4 }

-- Item `i` of the array is the number `i`.
abbrev items : ℕ → ℕ
items i = i

abbrev at_first : State ℕ
at_first = record { phase = 0; memory = items }

at_first-Ready : Ready window (plan_shift rounded window) items 0 at_first
unfolding plan_shift buffer_index
at_first-Ready = record {
  periods = 0;
  phase = refl;
  early = omega arith;
  kept = λ i l h. omega arith;
}

at_first-Runs : Runs window (plan_shift rounded window) items 0 at_first at_first
unfolding plan_shift buffer_index
at_first-Runs = record { phase = refl; access = λ i l h. inl (omega arith) }

at_first-Complete : Complete window (plan_shift rounded window) items 0 at_first
unfolding plan_shift buffer_index
at_first-Complete = record {
  periods = 0;
  phase = refl;
  early = omega arith;
  all = λ i l h. omega arith;
}

abbrev at_second : State ℕ
at_second = advance (plan_shift rounded window) at_first

at_second-Runs : Runs window (plan_shift rounded window) items 1 at_second at_second
unfolding plan_shift buffer_index advance
at_second-Runs = record { phase = refl; access = λ i l h. inl (omega arith) }

periods_access_example :
    Ready window (plan_shift rounded window) items 1 at_second
    × Complete window (plan_shift rounded window) items 1 at_second
periods_access_example =
    periods_access rounded window items {n = 1} {s = at_second} {t = at_second}
      (next (first at_first-Ready) at_first-Runs) at_second-Runs

place_in_bounds_example :
    buffer_index (plan_shift rounded window) 0 2 < (plan_shift rounded window).dimension_size
place_in_bounds_example =
    place_in_bounds rounded window items {n = 0} {s = at_first} 2 at_first-Ready (omega arith)

buffer_index-wrap_example :
    buffer_index (plan_wrap rounded window) (iterate (plan_wrap rounded window) 6 at_first).phase 2
    ≡ (2 + 6 * 1) % 4
buffer_index-wrap_example = buffer_index-wrap rounded window 6 2 at_first refl

-- A size that is a power of two, with a mask, and one that is not.
both_ways : (wrap 4 7 ≡ 3) × (wrap 6 7 ≡ 1)
unfolding wrap
both_ways = (refl, refl)
