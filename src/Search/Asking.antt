-- ===== src/Search/Asking.antt =====
-- `binarySearchWithEstimate` with a predicate that asks: its answers change the world, and it may never
-- answer (`none`). Where its answers are those of a function, the search is that of the function.
use rainbow_bridge.Prelude.{ℕ, zero, suc, ◌*◌, ◌≡◌, Bool, true, false, Option, none, some}
use rainbow_bridge.Prelude.Int.{ℤ, pos, ◌+ℤ◌, ◌-ℤ◌, ltb_ℤ, half_ℤ}
use rainbow_bridge.Search.{range_below, range_above, rounds}

-- An action that may have no result.
abbrev pub Asking : Type 0 → Type 0 → Type 0
Asking W A = W → Option A × W

module _ {W A B : Type 0} where
  abbrev pub next_asked : Option A → (A → Asking W B) → Asking W B
  next_asked none f w = (none, w)
  next_asked (some a) f w = f a w

  -- `await`.
  abbrev pub await_then : Asking W A → (A → Asking W B) → Asking W B
  await_then m f w = let (answer, w') = m w in next_asked answer f w'

module _ {W : Type 0} (predicate : ℤ → Asking W Bool) where
  unfoldable pub ask_down : ℤ → ℤ → ℕ → ℕ → Asking W ℕ
  ask_down lo hi zero step w = (none, w)
  ask_down lo hi (suc fuel) step w = elim (ltb_ℤ lo (hi -ℤ pos step)) [
    | false ↦ (some step, w)
    | true ↦
        await_then (predicate (hi -ℤ pos step))
          (λ b v. elim b [ true ↦ ask_down lo hi fuel (step * 2) v | false ↦ (some step, v) ]) w
  ]

  unfoldable pub ask_up : ℤ → ℤ → ℕ → ℕ → Asking W ℕ
  ask_up lo hi zero step w = (none, w)
  ask_up lo hi (suc fuel) step w = elim (ltb_ℤ (lo +ℤ pos step) hi) [
    | false ↦ (some step, w)
    | true ↦
        await_then (predicate (lo +ℤ pos step))
          (λ b v. elim b [ true ↦ (some step, v) | false ↦ ask_up lo hi fuel (step * 2) v ]) w
  ]

  unfoldable pub ask_bisect : ℕ → ℤ → ℤ → Asking W ℤ
  ask_bisect zero lo hi w = (none, w)
  ask_bisect (suc fuel) lo hi w = elim (ltb_ℤ (lo +ℤ pos 1) hi) [
    | false ↦ (some hi, w)
    | true ↦
        await_then (predicate (half_ℤ (lo +ℤ hi)))
          (λ b v. elim b [
            | true ↦ ask_bisect fuel lo (half_ℤ (lo +ℤ hi)) v
            | false ↦ ask_bisect fuel (half_ℤ (lo +ℤ hi)) hi v
          ])
          w
  ]

  unfoldable pub ask_bracket : ℕ → ℤ → ℤ → ℤ → Asking W (ℤ × ℤ)
  ask_bracket fuel limit_lo limit_hi estimate = await_then (predicate estimate) (λ b. elim b [
    | true ↦
        await_then (ask_down limit_lo estimate fuel 1)
          (λ step w. (some (range_below limit_lo estimate step), w))
    | false ↦
        await_then (ask_up estimate limit_hi fuel 1)
          (λ step w. (some (range_above limit_hi estimate step), w))
  ])

  unfoldable pub asking_search : ℤ → ℤ → ℤ → Asking W ℤ
  asking_search limit_lo limit_hi estimate =
      let fuel = rounds limit_lo limit_hi estimate in
      await_then (ask_bracket fuel limit_lo limit_hi estimate)
        (λ range. ask_bisect fuel range.0 range.1)

-- In the worlds of the invariant, the predicate answers as the function does.
module _ {W : Type 0} (predicate : ℤ → Asking W Bool) (q : ℤ → Bool) (Inv : W → Type 0)
    (answers : (v : ℤ) (w : W)
      → Inv w
      → (w' : W) × (predicate v w ≡ (some (q v), w')) × Inv w') where
  abbrev pub Agrees : {A : Type 0} → Asking W A → Option A → Type 0
  Agrees m r = (w : W) → Inv w → (w' : W) × (m w ≡ (r, w')) × Inv w'

  abbrev then_option : {A B : Type 0} → Option A → (A → Option B) → Option B
  then_option none g = none
  then_option (some a) g = g a
