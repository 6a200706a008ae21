-- ===== src/Search/Correct.antt =====
-- The search is total and finds the first position at which the predicate holds.
use rainbow_bridge.Prelude.{
  ℕ, ◌+◌, ◌/◌, ◌≤◌, ◌<◌, ◌≡◌, ◌⊎◌, inl, inr, Bool, true, false, some, arith, Bool-cases,
}
use rainbow_bridge.Prelude.Int.{
  ℤ, pos, gap_low, gap_high, le-max_left, min-le_left, max-cases, min-cases, ◌+ℤ◌, ◌-ℤ◌, ◌≤ℤ◌, ◌<ℤ◌,
  min_ℤ, max_ℤ, pos_part, int_laws,
}
use rainbow_bridge.Search.{
  bracket, range_below, range_above, search_with_fuel, binary_search_with_estimate, rounds,
}
use rainbow_bridge.Search.Loops.{
  IsMonotone, IsFirst, false_below, bisect_lem, step_down_lem, step_up_lem,
}

-- A range whose low end fails and whose high end holds, narrow enough for the fuel.
abbrev IsBracket : (ℤ → Bool) → ℕ → ℤ × ℤ → Type 0
IsBracket p fuel b = (p b.0 ≡ false) × (p b.1 ≡ true) × (pos_part (b.1 -ℤ b.0) < fuel)

minus_zero : (a : ℤ) → a ≡ a -ℤ pos 0
minus_zero a = omega int_laws

plus_zero : (a : ℤ) → a ≡ a +ℤ pos 0
plus_zero a = omega int_laws

module _ (p : ℤ → Bool) (mono : IsMonotone p) (fuel : ℕ) (lo hi estimate : ℤ) (high : p hi ≡ true)
    (enough : pos_part (hi -ℤ lo) + pos_part (estimate -ℤ lo) + pos_part (hi -ℤ estimate) + 2
      ≤ fuel) where
  range_above-IsBracket :
      (step : ℕ)
      → p (estimate +ℤ pos (step / 2)) ≡ false
      → ((hi ≤ℤ estimate +ℤ pos step) ⊎ (p (estimate +ℤ pos step) ≡ true))
      → IsBracket p fuel (range_above hi estimate step)
  range_above-IsBracket step f stop = (f, high_end (min-cases hi far) stop, room)
    where
      far : ℤ
      far = estimate +ℤ pos (step / 2) +ℤ pos step

      room : pos_part (min_ℤ hi far -ℤ (estimate +ℤ pos (step / 2))) < fuel
      room = omega (
        int_laws,
        gap_high (estimate +ℤ pos (step / 2)) (min_ℤ hi far) hi (min-le_left hi far),
        gap_low estimate (estimate +ℤ pos (step / 2)) hi (omega int_laws),
      )

      high_end :
          ((min_ℤ hi far ≡ far) ⊎ ((min_ℤ hi far ≡ hi) × (hi <ℤ far)))
          → ((hi ≤ℤ estimate +ℤ pos step) ⊎ (p (estimate +ℤ pos step) ≡ true))
          → p (min_ℤ hi far) ≡ true
      high_end (inr (e, l)) _ = rw e high
      high_end (inl e) (inl big) = mono hi (min_ℤ hi far) (rw e (omega int_laws)) high
      high_end (inl e) (inr t) = rw e (mono (estimate +ℤ pos step) far (omega int_laws) t)

  -- Above an estimate that fails, the low limit plays no part.
  bracket_above :
      p estimate ≡ false
      → (b : ℤ × ℤ) × (bracket p fuel lo hi estimate ≡ some b) × IsBracket p fuel b
  unfolding bracket
  bracket_above f =
      let (s, e, f', stop) =
        step_up_lem p mono estimate hi fuel 1 (omega arith) (omega arith) (omega arith)
          (rw (← plus_zero estimate) f) in
      (range_above hi estimate s, rw (f, e), range_above-IsBracket s f' stop)

  search_of_bracket :
      (b : ℤ × ℤ) × (bracket p fuel lo hi estimate ≡ some b) × IsBracket p fuel b
      → (r : ℤ) × (search_with_fuel p fuel lo hi estimate ≡ some r) × IsFirst p r
  unfolding search_with_fuel
  search_of_bracket ((l, h), e, (f, t, room)) =
      let (r, e', first) = bisect_lem p mono fuel l h f t room in
      (r, rw (e, search_with_fuel, e'), first)

module _ (p : ℤ → Bool) (mono : IsMonotone p) (fuel : ℕ) (lo hi estimate : ℤ) (low : p lo ≡ false)
    (high : p hi ≡ true)
    (enough : pos_part (hi -ℤ lo) + pos_part (estimate -ℤ lo) + pos_part (hi -ℤ estimate) + 2
      ≤ fuel) where
  range_below-IsBracket :
      (step : ℕ)
      → p (estimate -ℤ pos (step / 2)) ≡ true
      → ((estimate -ℤ pos step ≤ℤ lo) ⊎ (p (estimate -ℤ pos step) ≡ false))
      → IsBracket p fuel (range_below lo estimate step)
  range_below-IsBracket step t stop = (low_end (max-cases lo far) stop, t, room)
    where
      far : ℤ
      far = estimate -ℤ pos (step / 2) -ℤ pos step

      room : pos_part (estimate -ℤ pos (step / 2) -ℤ max_ℤ lo far) < fuel
      room = omega (
        int_laws,
        gap_low lo (max_ℤ lo far) (estimate -ℤ pos (step / 2)) (le-max_left lo far),
        gap_high lo (estimate -ℤ pos (step / 2)) estimate (omega int_laws),
      )

      low_end :
          ((max_ℤ lo far ≡ lo) ⊎ ((max_ℤ lo far ≡ far) × (lo <ℤ far)))
          → ((estimate -ℤ pos step ≤ℤ lo) ⊎ (p (estimate -ℤ pos step) ≡ false))
          → p (max_ℤ lo far) ≡ false
      low_end (inl e) _ = rw e low
      low_end (inr (e, l)) (inl small) = absurd (omega int_laws)
      low_end (inr (e, l)) (inr f) =
          rw e (false_below p mono far (estimate -ℤ pos step) (omega int_laws) f)

  bracket-IsBracket : (b : ℤ × ℤ) × (bracket p fuel lo hi estimate ≡ some b) × IsBracket p fuel b
  unfolding bracket
  bracket-IsBracket = elim (Bool-cases (p estimate)) [
    | inl t ↦
        let (s, e, t', stop) =
          step_down_lem p mono lo estimate fuel 1 (omega arith) (omega arith) (omega arith)
            (rw (← minus_zero estimate) t) in
        (range_below lo estimate s, rw (t, e), range_below-IsBracket s t' stop)
    | inr f ↦ bracket_above p mono fuel lo hi estimate high enough f
  ]

  search_with_fuel_lem : (r : ℤ) × (search_with_fuel p fuel lo hi estimate ≡ some r) × IsFirst p r
  search_with_fuel_lem = search_of_bracket p mono fuel lo hi estimate high enough bracket-IsBracket

-- For a predicate that, once true, stays true, that fails at the low limit and holds at the high
-- one, the search ends within its rounds, whatever the estimate, a negative one included, and
-- returns the first position at which the predicate holds.
pub search-IsFirst :
    (p : ℤ → Bool) (lo hi estimate : ℤ)
    → IsMonotone p
    → p lo ≡ false
    → p hi ≡ true
    → (r : ℤ) × (binary_search_with_estimate lo hi estimate p ≡ some r) × IsFirst p r
unfolding binary_search_with_estimate
search-IsFirst p lo hi estimate mono low high =
    search_with_fuel_lem p mono (rounds lo hi estimate) lo hi estimate low high (omega arith)

-- Where it fails at the estimate, it need not fail at the low limit.
pub search_above-IsFirst :
    (p : ℤ → Bool) (lo hi estimate : ℤ)
    → IsMonotone p
    → p estimate ≡ false
    → p hi ≡ true
    → (r : ℤ) × (binary_search_with_estimate lo hi estimate p ≡ some r) × IsFirst p r
unfolding binary_search_with_estimate
search_above-IsFirst p lo hi estimate mono fails high =
    let enough = rounds lo hi estimate in
    search_of_bracket p mono enough lo hi estimate high (omega arith)
      (bracket_above p mono enough lo hi estimate high (omega arith) fails)
