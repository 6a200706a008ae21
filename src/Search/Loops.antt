-- ===== src/Search/Loops.antt =====
-- The three loops of the search, for a predicate that stays true once it is true.
use rainbow_bridge.Prelude.{
  ℕ, zero, suc, ◌+◌, ◌*◌, ◌/◌, ◌≤◌, ◌<◌, ◌≡◌, ◌⊎◌, inl, inr, Bool, true, false, some, arith,
  Bool-cases,
}
use rainbow_bridge.Prelude.Int.{
  ℤ, pos, ◌+ℤ◌, ◌-ℤ◌, ◌≤ℤ◌, ◌<ℤ◌, ltb_ℤ, half_ℤ, pos_part, parts_disjoint, int_laws, ltb_ℤ→lt,
  ltb_ℤ→le,
}
use rainbow_bridge.Search.{step_down, step_up, bisect}

abbrev pub IsMonotone : (ℤ → Bool) → Type 0
IsMonotone p = (x y : ℤ) → x ≤ℤ y → p x ≡ true → p y ≡ true

-- `r` is the first position at which the predicate holds.
abbrev pub IsFirst : (ℤ → Bool) → ℤ → Type 0
IsFirst p r = (p r ≡ true) × (p (r -ℤ pos 1) ≡ false)

module _ (p : ℤ → Bool) (mono : IsMonotone p) where
  pub false_below : (x y : ℤ) → x ≤ℤ y → p y ≡ false → p x ≡ false
  false_below x y h e = elim (Bool-cases (p x)) [
    | inl t ↦ absurd (ground (arith, mono x y h t))
    | inr f ↦ f
  ]

  pub lt_of_values : (x y : ℤ) → p x ≡ false → p y ≡ true → x <ℤ y
  lt_of_values x y f t = elim (Bool-cases (ltb_ℤ x y)) [
    | inl l ↦ ltb_ℤ→lt x y l
    | inr g ↦ absurd (ground (arith, mono y x (ltb_ℤ→le x y g) t))
  ]

  pub bisect_lem :
      (fuel : ℕ) (lo hi : ℤ)
      → p lo ≡ false
      → p hi ≡ true
      → pos_part (hi -ℤ lo) < fuel
      → (r : ℤ) × (bisect p fuel lo hi ≡ some r) × IsFirst p r
  unfolding bisect
  bisect_lem zero lo hi f t m = absurd (omega arith)
  bisect_lem (suc fuel) lo hi f t m = elim (Bool-cases (ltb_ℤ (lo +ℤ pos 1) hi)) [
    | inr done ↦ (
      hi,
      rw done,
      (t, false_below (hi -ℤ pos 1) lo (omega (int_laws, ltb_ℤ→le (lo +ℤ pos 1) hi done)) f),
    )
    | inl more ↦ elim (Bool-cases (p (half_ℤ (lo +ℤ hi)))) [
      | inl left ↦
          rw (more, left)
            (bisect_lem fuel lo (half_ℤ (lo +ℤ hi)) f left (
              omega (
                int_laws,
                parts_disjoint (half_ℤ (lo +ℤ hi) -ℤ lo),
                parts_disjoint (hi -ℤ lo),
                ltb_ℤ→lt (lo +ℤ pos 1) hi more,
              )))
      | inr right ↦
          rw (more, right)
            (bisect_lem fuel (half_ℤ (lo +ℤ hi)) hi right t (
              omega (
                int_laws,
                parts_disjoint (hi -ℤ half_ℤ (lo +ℤ hi)),
                parts_disjoint (hi -ℤ lo),
                ltb_ℤ→lt (lo +ℤ pos 1) hi more,
              )))
    ]
  ]

  pub step_down_lem :
      (lo hi : ℤ) (fuel step : ℕ)
      → pos_part (hi -ℤ lo) < fuel + step
      → 0 < fuel
      → 1 ≤ step
      → p (hi -ℤ pos (step / 2)) ≡ true
      → (s : ℕ) × (step_down p lo hi fuel step ≡ some s)
        × (p (hi -ℤ pos (s / 2)) ≡ true)
        × ((hi -ℤ pos s ≤ℤ lo) ⊎ (p (hi -ℤ pos s) ≡ false))
  unfolding step_down
  step_down_lem lo hi zero step m g one t = absurd (omega arith)
  step_down_lem lo hi (suc fuel) step m g one t = elim (Bool-cases (ltb_ℤ lo (hi -ℤ pos step))) [
    | inr done ↦ (step, rw done, t, inl (ltb_ℤ→le lo (hi -ℤ pos step) done))
    | inl inside ↦ elim (Bool-cases (p (hi -ℤ pos step))) [
      | inr stop ↦ (step, rw (inside, stop), t, inr stop)
      | inl go ↦
          let e : step * 2 / 2 ≡ step = omega arith in
          rw (inside, go)
            (step_down_lem lo hi fuel (step * 2) (omega arith)
              (omega (int_laws, parts_disjoint (hi -ℤ lo), ltb_ℤ→lt lo (hi -ℤ pos step) inside))
              (omega arith) (rw e go))
    ]
  ]

  pub step_up_lem :
      (lo hi : ℤ) (fuel step : ℕ)
      → pos_part (hi -ℤ lo) < fuel + step
      → 0 < fuel
      → 1 ≤ step
      → p (lo +ℤ pos (step / 2)) ≡ false
      → (s : ℕ) × (step_up p lo hi fuel step ≡ some s)
        × (p (lo +ℤ pos (s / 2)) ≡ false)
        × ((hi ≤ℤ lo +ℤ pos s) ⊎ (p (lo +ℤ pos s) ≡ true))
  unfolding step_up
  step_up_lem lo hi zero step m g one t = absurd (omega arith)
  step_up_lem lo hi (suc fuel) step m g one t = elim (Bool-cases (ltb_ℤ (lo +ℤ pos step) hi)) [
    | inr done ↦ (step, rw done, t, inl (ltb_ℤ→le (lo +ℤ pos step) hi done))
    | inl inside ↦ elim (Bool-cases (p (lo +ℤ pos step))) [
      | inl stop ↦ (step, rw (inside, stop), t, inr stop)
      | inr go ↦
          let e : step * 2 / 2 ≡ step = omega arith in
          rw (inside, go)
            (step_up_lem lo hi fuel (step * 2) (omega arith)
              (omega (int_laws, parts_disjoint (hi -ℤ lo), ltb_ℤ→lt (lo +ℤ pos step) hi inside))
              (omega arith) (rw e go))
    ]
  ]
