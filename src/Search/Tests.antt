-- ===== src/Search/Tests.antt =====
-- Runs of the search, and the theorems about it at concrete positions.
use rainbow_bridge.Prelude.{ℕ, ◌+◌, ◌≡◌, refl, Bool, true, Option, some, arith}
use rainbow_bridge.Prelude.Int.{
  ℤ, pos, negsuc, ◌+ℤ◌, ◌-ℤ◌, ◌≤ℤ◌, ◌<ℤ◌, ltb_ℤ, int_laws, ltb_ℤ→lt, lt→ltb_ℤ,
}
use rainbow_bridge.Search.{
  step_down, step_up, bisect, bracket, search_with_fuel, binary_search_with_estimate,
}
use rainbow_bridge.Search.Loops.{IsMonotone, IsFirst}
use rainbow_bridge.Search.Asking.{Asking}
use rainbow_bridge.Search.Correct.{search-IsFirst}
use rainbow_bridge.Search.Limit.{search_above_low}

-- Blocks above 4 are missing; all blocks from 3 on are.
abbrev above_four : ℤ → Bool
above_four x = ltb_ℤ (pos 4) x

abbrev above_two : ℤ → Bool
above_two x = ltb_ℤ (pos 2) x

above_four-IsMonotone : IsMonotone above_four
above_four-IsMonotone x y h t = lt→ltb_ℤ (pos 4) y (omega (int_laws, ltb_ℤ→lt (pos 4) x t))

above_two_from : (x : ℤ) → pos 3 ≤ℤ x → above_two x ≡ true
above_two_from x h = lt→ltb_ℤ (pos 2) x (omega int_laws)

run_below_zero : binary_search_with_estimate (pos 0) (pos 10) (negsuc 2) above_four ≡ some (pos 5)
unfolding binary_search_with_estimate search_with_fuel bracket step_down step_up bisect ltb_ℤ ◌-ℤ◌
    ◌+ℤ◌ rainbow_bridge.Prelude.Int.min_ℤ rainbow_bridge.Prelude.Int.half_ℤ
run_below_zero = refl

search-IsFirst_example :
    (r : ℤ) × (binary_search_with_estimate (pos 0) (pos 10) (pos 7) above_four ≡ some r)
    × IsFirst above_four r
search-IsFirst_example =
    search-IsFirst above_four (pos 0) (pos 10) (pos 7) above_four-IsMonotone refl refl

search_above_low_example :
    binary_search_with_estimate (pos 3) (pos 9) (pos 5) above_two ≡ some (pos 3 +ℤ pos 1)
search_above_low_example =
    search_above_low above_two (pos 3) (pos 9) (pos 5) above_two_from (omega int_laws)

-- A predicate that counts the questions.
abbrev counted : ℤ → Asking ℕ Bool
counted v w = (some (ltb_ℤ (pos 2) v), w + 1)
