-- ===== src/Search/Limit.antt =====
-- The search where the predicate holds at the low limit already.
use rainbow_bridge.Prelude.{
  ℕ, zero, suc, ◌+◌, ◌*◌, ◌/◌, ◌≤◌, ◌<◌, ◌≡◌, inl, inr, Bool, true, false, some, arith, Bool-cases,
}
use rainbow_bridge.Prelude.Int.{
  ℤ, pos, ◌+ℤ◌, ◌-ℤ◌, ◌≤ℤ◌, ◌<ℤ◌, ltb_ℤ, half_ℤ, max_ℤ, max-cases, pos_part, parts_disjoint,
  int_laws, ltb_ℤ→lt, ltb_ℤ→le, le→ltb_ℤ, gap_high,
}
use rainbow_bridge.Search.{
  step_down, bracket, bisect, search_with_fuel, binary_search_with_estimate, rounds,
}

module _ (p : ℤ → Bool) (lo : ℤ) (all : (x : ℤ) → lo ≤ℤ x → p x ≡ true) where
  bisect_all :
      (fuel : ℕ) (hi : ℤ)
      → lo <ℤ hi
      → pos_part (hi -ℤ lo) < fuel
      → bisect p fuel lo hi ≡ some (lo +ℤ pos 1)
  unfolding bisect
  bisect_all zero hi l m = absurd (omega arith)
  bisect_all (suc fuel) hi l m = elim (Bool-cases (ltb_ℤ (lo +ℤ pos 1) hi)) [
    | inr done ↦
        rw done
          (let e : hi ≡ lo +ℤ pos 1 = omega (int_laws, ltb_ℤ→le (lo +ℤ pos 1) hi done) in rw e)
    | inl more ↦
        let wide : lo +ℤ pos 1 <ℤ hi = ltb_ℤ→lt (lo +ℤ pos 1) hi more in
        rw (more, all (half_ℤ (lo +ℤ hi)) (omega int_laws))
          (bisect_all fuel (half_ℤ (lo +ℤ hi)) (omega int_laws)
            (omega (int_laws, parts_disjoint (half_ℤ (lo +ℤ hi) -ℤ lo), parts_disjoint (hi -ℤ lo))))
  ]

  step_down_all :
      (hi : ℤ) (fuel step : ℕ)
      → pos_part (hi -ℤ lo) < fuel + step
      → 0 < fuel
      → 1 ≤ step
      → lo <ℤ hi -ℤ pos (step / 2)
      → (s : ℕ) × (step_down p lo hi fuel step ≡ some s)
        × (lo <ℤ hi -ℤ pos (s / 2))
        × (hi -ℤ pos s ≤ℤ lo)
  unfolding step_down
  step_down_all hi zero step m g one l = absurd (omega arith)
  step_down_all hi (suc fuel) step m g one l = elim (Bool-cases (ltb_ℤ lo (hi -ℤ pos step))) [
    | inr done ↦ (step, rw done, l, ltb_ℤ→le lo (hi -ℤ pos step) done)
    | inl inside ↦
        let e : step * 2 / 2 ≡ step = omega arith in
        let below : lo <ℤ hi -ℤ pos step = ltb_ℤ→lt lo (hi -ℤ pos step) inside in
        rw (inside, all (hi -ℤ pos step) (omega int_laws))
          (step_down_all hi fuel (step * 2) (omega arith)
            (omega (int_laws, parts_disjoint (hi -ℤ lo))) (omega arith) (rw e below))
  ]

  -- The low end of the range is the limit, since the last step went past it.
  low_end :
      (estimate : ℤ) (s : ℕ)
      → estimate -ℤ pos s ≤ℤ lo
      → max_ℤ lo (estimate -ℤ pos (s / 2) -ℤ pos s) ≡ lo
  low_end estimate s h = elim (max-cases lo (estimate -ℤ pos (s / 2) -ℤ pos s)) [
    | inl e ↦ e
    | inr (e, l) ↦ absurd (omega int_laws)
  ]

  search_with_fuel_all :
      (fuel : ℕ) (hi estimate : ℤ)
      → lo <ℤ estimate
      → pos_part (estimate -ℤ lo) + 2 ≤ fuel
      → search_with_fuel p fuel lo hi estimate ≡ some (lo +ℤ pos 1)
  unfolding search_with_fuel bracket
  search_with_fuel_all fuel hi estimate l room =
      let start : lo <ℤ estimate -ℤ pos (1 / 2) = omega int_laws in
      let (s, e, l', past) =
        step_down_all estimate fuel 1 (omega arith) (omega arith) (omega arith) start in
      rw (all estimate (omega int_laws), search_with_fuel, bracket, e, low_end estimate s past)
        (bisect_all fuel (estimate -ℤ pos (s / 2)) l'
          (omega (arith, gap_high lo (estimate -ℤ pos (s / 2)) estimate (omega int_laws))))

  search_at_limit : (fuel : ℕ) (hi : ℤ) → search_with_fuel p (suc fuel) lo hi lo ≡ some lo
  unfolding search_with_fuel bracket step_down bisect
  search_at_limit fuel hi =
      let stop : ltb_ℤ lo (lo -ℤ pos 1) ≡ false = le→ltb_ℤ lo (lo -ℤ pos 1) (omega int_laws) in
      let same : lo -ℤ pos (1 / 2) ≡ lo = omega int_laws in
      let end : ltb_ℤ (lo +ℤ pos 1) lo ≡ false = le→ltb_ℤ (lo +ℤ pos 1) lo (omega int_laws) in
      rw (
        all lo (omega arith),
        search_with_fuel,
        bracket,
        stop,
        low_end lo 1 (omega int_laws),
        same,
        end,
      )

-- Where the predicate holds from the low limit on and the estimate is the low limit, the search
-- returns the low limit.
pub search_at_low :
    (p : ℤ → Bool) (lo hi : ℤ)
    → ((x : ℤ) → lo ≤ℤ x → p x ≡ true)
    → binary_search_with_estimate lo hi lo p ≡ some lo
unfolding binary_search_with_estimate
search_at_low p lo hi all =
    let more = pos_part (hi -ℤ lo) + pos_part (lo -ℤ lo) + pos_part (hi -ℤ lo) + 1 in
    let e : rounds lo hi lo ≡ suc more = omega arith in rw e (search_at_limit p lo all more hi)

-- Where the predicate holds from the low limit on and the estimate lies above it, the search returns
-- the position after the low limit, and never the low limit itself.
pub search_above_low :
    (p : ℤ → Bool) (lo hi estimate : ℤ)
    → ((x : ℤ) → lo ≤ℤ x → p x ≡ true)
    → lo <ℤ estimate
    → binary_search_with_estimate lo hi estimate p ≡ some (lo +ℤ pos 1)
unfolding binary_search_with_estimate
search_above_low p lo hi estimate all l =
    search_with_fuel_all p lo all (rounds lo hi estimate) hi estimate l (omega arith)
