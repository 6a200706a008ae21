-- ===== src/Search/Total.antt =====
-- The search ends, whatever the predicate answers.
use rainbow_bridge.Prelude.{
  ℕ, zero, suc, ◌+◌, ◌*◌, ◌/◌, ◌≤◌, ◌<◌, ◌≡◌, Bool, some, arith, Bool-cases, inl, inr,
}
use rainbow_bridge.Prelude.Int.{
  ℤ, pos, ◌+ℤ◌, ◌-ℤ◌, ◌<ℤ◌, ltb_ℤ, half_ℤ, max_ℤ, min_ℤ, pos_part, parts_disjoint, int_laws,
  ltb_ℤ→lt, gap_low, gap_high, le-max_left, min-le_left,
}
use rainbow_bridge.Search.{
  step_down, step_up, bracket, range_below, range_above, bisect, search_with_fuel,
  binary_search_with_estimate, rounds,
}

module _ (p : ℤ → Bool) where
  bisect_ends :
      (fuel : ℕ) (lo hi : ℤ) → pos_part (hi -ℤ lo) < fuel → (r : ℤ) × (bisect p fuel lo hi ≡ some r)
  unfolding bisect
  bisect_ends zero lo hi m = absurd (omega arith)
  bisect_ends (suc fuel) lo hi m = elim (Bool-cases (ltb_ℤ (lo +ℤ pos 1) hi)) [
    | inr done ↦ (hi, rw done)
    | inl more ↦
        let wide : lo +ℤ pos 1 <ℤ hi = ltb_ℤ→lt (lo +ℤ pos 1) hi more in
        let mid = half_ℤ (lo +ℤ hi) in
        let (l, el) =
          bisect_ends fuel lo mid
            (omega (int_laws, parts_disjoint (mid -ℤ lo), parts_disjoint (hi -ℤ lo))) in
        let (r, er) =
          bisect_ends fuel mid hi
            (omega (int_laws, parts_disjoint (hi -ℤ mid), parts_disjoint (hi -ℤ lo))) in
        elim (Bool-cases (p mid)) [ inl t ↦ (l, rw (more, t) el) | inr f ↦ (r, rw (more, f) er) ]
  ]

  step_down_ends :
      (lo hi : ℤ) (fuel step : ℕ)
      → pos_part (hi -ℤ lo) < fuel + step
      → 0 < fuel
      → 1 ≤ step
      → (s : ℕ) × (step_down p lo hi fuel step ≡ some s)
  unfolding step_down
  step_down_ends lo hi zero step m g one = absurd (omega arith)
  step_down_ends lo hi (suc fuel) step m g one = elim (Bool-cases (ltb_ℤ lo (hi -ℤ pos step))) [
    | inr done ↦ (step, rw done)
    | inl inside ↦ elim (Bool-cases (p (hi -ℤ pos step))) [
      | inr stop ↦ (step, rw (inside, stop))
      | inl go ↦
          rw (inside, go)
            (step_down_ends lo hi fuel (step * 2) (omega arith)
              (omega (int_laws, parts_disjoint (hi -ℤ lo), ltb_ℤ→lt lo (hi -ℤ pos step) inside))
              (omega arith))
    ]
  ]

  step_up_ends :
      (lo hi : ℤ) (fuel step : ℕ)
      → pos_part (hi -ℤ lo) < fuel + step
      → 0 < fuel
      → 1 ≤ step
      → (s : ℕ) × (step_up p lo hi fuel step ≡ some s)
  unfolding step_up
  step_up_ends lo hi zero step m g one = absurd (omega arith)
  step_up_ends lo hi (suc fuel) step m g one = elim (Bool-cases (ltb_ℤ (lo +ℤ pos step) hi)) [
    | inr done ↦ (step, rw done)
    | inl inside ↦ elim (Bool-cases (p (lo +ℤ pos step))) [
      | inl stop ↦ (step, rw (inside, stop))
      | inr go ↦
          rw (inside, go)
            (step_up_ends lo hi fuel (step * 2) (omega arith)
              (omega (int_laws, parts_disjoint (hi -ℤ lo), ltb_ℤ→lt (lo +ℤ pos step) hi inside))
              (omega arith))
    ]
  ]

  bracket_ends :
      (fuel : ℕ) (lo hi estimate : ℤ)
      → pos_part (hi -ℤ lo) + pos_part (estimate -ℤ lo) + pos_part (hi -ℤ estimate) + 2 ≤ fuel
      → (b : ℤ × ℤ) × (bracket p fuel lo hi estimate ≡ some b) × (pos_part (b.1 -ℤ b.0) < fuel)
  unfolding bracket
  bracket_ends fuel lo hi estimate enough = elim (Bool-cases (p estimate)) [
    | inl t ↦
        let (s, e) = step_down_ends lo estimate fuel 1 (omega arith) (omega arith) (omega arith) in
        let high = estimate -ℤ pos (s / 2) in
        (
          range_below lo estimate s,
          rw (t, e),
          omega (
            int_laws,
            gap_low lo (max_ℤ lo (high -ℤ pos s)) high (le-max_left lo (high -ℤ pos s)),
            gap_high lo high estimate (omega int_laws),
          ),
        )
    | inr f ↦
        let (s, e) = step_up_ends estimate hi fuel 1 (omega arith) (omega arith) (omega arith) in
        let low = estimate +ℤ pos (s / 2) in
        (
          range_above hi estimate s,
          rw (f, e),
          omega (
            int_laws,
            gap_high low (min_ℤ hi (low +ℤ pos s)) hi (min-le_left hi (low +ℤ pos s)),
            gap_low estimate low hi (omega int_laws),
          ),
        )
  ]

-- The rounds are enough for every range, estimate and predicate: the search returns a position.
pub search_total :
    (lo hi estimate : ℤ) (p : ℤ → Bool)
    → (r : ℤ) × (binary_search_with_estimate lo hi estimate p ≡ some r)
unfolding binary_search_with_estimate search_with_fuel
search_total lo hi estimate p =
    let fuel = rounds lo hi estimate in
    let ((l, h), e, room) = bracket_ends p fuel lo hi estimate (omega arith) in
    let (r, e') = bisect_ends p fuel l h room in
    (r, rw (binary_search_with_estimate, search_with_fuel, e, e'))
