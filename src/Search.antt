-- ===== src/Search.antt =====
-- `binarySearchWithEstimate` of eth2near/eth2near-block-relay/index.js. Positions are integers, since
-- the relay's estimate may be negative. The predicate is a function: its answers do not change
-- while the search runs.
pub mod Asking
pub mod Loops
pub mod Correct
pub mod Limit
pub mod Total
mod Tests
use rainbow_bridge.Prelude.{
  ℕ, zero, suc, ◌+◌, ◌*◌, ◌/◌, ◌≡◌, refl, Bool, not, ◌&&◌, Option, none, some, if◌then◌else◌,
}
use rainbow_bridge.Prelude.Int.{ℤ, pos, negsuc, ◌+ℤ◌, ◌-ℤ◌, ltb_ℤ, min_ℤ, max_ℤ, half_ℤ, pos_part}

-- `while (hi - step > lo && await predicate(hi - step)) step *= 2`; `none` is out of fuel.
pub step_down : (ℤ → Bool) → ℤ → ℤ → ℕ → ℕ → Option ℕ
step_down predicate lo hi zero step = none
step_down predicate lo hi (suc fuel) step =
    let more = step_down predicate lo hi fuel (step * 2) in
    if ltb_ℤ lo (hi -ℤ pos step) && predicate (hi -ℤ pos step) then more else some step

-- `while (lo + step < hi && !await predicate(lo + step)) step *= 2`.
pub step_up : (ℤ → Bool) → ℤ → ℤ → ℕ → ℕ → Option ℕ
step_up predicate lo hi zero step = none
step_up predicate lo hi (suc fuel) step =
    let more = step_up predicate lo hi fuel (step * 2) in
    if ltb_ℤ (lo +ℤ pos step) hi && not (predicate (lo +ℤ pos step)) then more else some step

-- The last loop, which halves the range.
pub bisect : (ℤ → Bool) → ℕ → ℤ → ℤ → Option ℤ
bisect predicate zero lo hi = none
bisect predicate (suc fuel) lo hi =
    let mid = half_ℤ (lo +ℤ hi) in
    let left = bisect predicate fuel lo mid in
    let right = bisect predicate fuel mid hi in
    if ltb_ℤ (lo +ℤ pos 1) hi then (if predicate mid then left else right) else some hi

-- The range that the estimate leaves for the last loop.
abbrev pub range_below : ℤ → ℤ → ℕ → ℤ × ℤ
range_below lo estimate step =
    let hi = estimate -ℤ pos (step / 2) in (max_ℤ lo (hi -ℤ pos step), hi)

abbrev pub range_above : ℤ → ℤ → ℕ → ℤ × ℤ
range_above hi estimate step =
    let lo = estimate +ℤ pos (step / 2) in (lo, min_ℤ hi (lo +ℤ pos step))

pub bracket : (ℤ → Bool) → ℕ → ℤ → ℤ → ℤ → Option (ℤ × ℤ)
bracket predicate fuel limit_lo limit_hi estimate =
    if predicate estimate
    then elim (step_down predicate limit_lo estimate fuel 1) [
      | none ↦ none
      | some step ↦ some (range_below limit_lo estimate step)
    ]
    else elim (step_up predicate estimate limit_hi fuel 1) [
      | none ↦ none
      | some step ↦ some (range_above limit_hi estimate step)
    ]

pub search_with_fuel : (ℤ → Bool) → ℕ → ℤ → ℤ → ℤ → Option ℤ
search_with_fuel predicate fuel limit_lo limit_hi estimate =
    elim (bracket predicate fuel limit_lo limit_hi estimate) [
      | none ↦ none
      | some (lo, hi) ↦ bisect predicate fuel lo hi
    ]

-- Rounds that are enough for each loop.
abbrev pub rounds : ℤ → ℤ → ℤ → ℕ
rounds limit_lo limit_hi estimate =
    pos_part (limit_hi -ℤ limit_lo)
    + pos_part (estimate -ℤ limit_lo)
    + pos_part (limit_hi -ℤ estimate)
    + 2

pub binary_search_with_estimate : ℤ → ℤ → ℤ → (ℤ → Bool) → Option ℤ
binary_search_with_estimate limit_lo limit_hi estimate predicate =
    search_with_fuel predicate (rounds limit_lo limit_hi estimate) limit_lo limit_hi estimate
