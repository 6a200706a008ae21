-- ===== src/Relay/Near2Eth/Delay.antt =====
-- The delay between two rounds, described apart from the code.
use rainbow_bridge.Prelude.{
  ℕ, ◌+◌, ◌*◌, ◌≡◌, ◌≢◌, refl, ◌⊎◌, inl, inr, true, false, ◌==◌, ==_iff, arith,
}
use rainbow_bridge.Prelude.Int.{
  ℤ, pos, negsuc, ◌-ℤ◌, ◌≤ℤ◌, min_ℤ, max_ℤ, min-le_left, min-le_right, le-max_left, le-max_right,
  max-cases, min-cases, trunc_div,
}
use rainbow_bridge.Relay.Near2Eth.Rules.{Said}
use rainbow_bridge.Relay.Near2Eth.{
  BridgeState, Block, Options, Chains, delay_from, replace_delay, milliseconds,
}

-- The larger, and the smaller, of two numbers.
abbrev pub IsLarger : ℤ → ℤ → ℤ → Type 0
IsLarger a b d = (a ≤ℤ d) × (b ≤ℤ d) × ((d ≡ a) ⊎ (d ≡ b))

abbrev pub IsSmaller : ℤ → ℤ → ℤ → Type 0
IsSmaller a b d = (d ≤ℤ a) × (d ≤ℤ b) × ((d ≡ a) ⊎ (d ≡ b))

max-IsLarger : (a b : ℤ) → IsLarger a b (max_ℤ a b)
max-IsLarger a b =
    (le-max_left a b, le-max_right a b, elim (max-cases a b) [ inl e ↦ inl e | inr (e, _) ↦ inr e ])

min-IsSmaller : (a b : ℤ) → IsSmaller a b (min_ℤ a b)
min-IsSmaller a b =
    (min-le_left a b, min-le_right a b, elim (min-cases a b) [ inl e ↦ inr e | inr (e, _) ↦ inl e ])

-- The delay: without a pending block the maximum; with one, the least of the maximum, the time until it
-- is valid after the chain's latest block, and the whole seconds until it can be replaced; but never
-- less than the minimum.
abbrev pub IsDelay : {W : Type 0} → Chains W → Options → BridgeState → ℕ → Block → ℤ → Type 0
IsDelay chains options s duration block delay =
    ((s.next_valid_at ≡ 0) × IsLarger (pos options.max_delay) (pos options.min_delay) delay)
    ⊎ ((s.next_valid_at ≢ 0)
        × (now : ℕ) × (until least : ℤ) × Said chains.latest_timestamp now
        × IsSmaller (pos options.max_delay) (pos s.next_valid_at -ℤ pos now) until
        × IsSmaller until
            (trunc_div (pos (s.next_timestamp + duration) -ℤ pos block.timestamp) 1_000_000_000)
            least
        × IsLarger least (pos options.min_delay) delay)

module _ {W : Type 0} (chains : Chains W) (options : Options) (s : BridgeState) (duration : ℕ)
    (block : Block) where
  pub nothing_pending-IsDelay :
      s.next_valid_at == 0 ≡ true
      → IsDelay chains options s duration block
          (max_ℤ (pos options.max_delay) (pos options.min_delay))
  nothing_pending-IsDelay h =
      inl ((==_iff _ _).0 h, max-IsLarger (pos options.max_delay) (pos options.min_delay))

  pub delay_from-IsDelay :
      (now : ℕ)
      → s.next_valid_at == 0 ≡ false
      → Said chains.latest_timestamp now
      → IsDelay chains options s duration block (delay_from options s duration block now)
  unfolding delay_from
  delay_from-IsDelay now h said = inr (
    λ none. ground (arith, h, none),
    now,
    min_ℤ (pos options.max_delay) (pos s.next_valid_at -ℤ pos now),
    _,
    said,
    min-IsSmaller (pos options.max_delay) (pos s.next_valid_at -ℤ pos now),
    min-IsSmaller _ (trunc_div (replace_delay s duration block) 1_000_000_000),
    max-IsLarger _ (pos options.min_delay),
  )

  -- A delay is not negative, and the milliseconds are a thousand times the seconds.
  pub delay-seconds :
      (delay : ℤ)
      → IsDelay chains options s duration block delay
      → (n : ℕ) × (delay ≡ pos n) × (milliseconds delay ≡ pos (1000 * n))
  unfolding milliseconds
  delay-seconds (pos n) h = (n, refl, refl)
  delay-seconds (negsuc n) (inl (free, (_, least, _))) = absurd (omega (arith, least))
  delay-seconds (negsuc n) (inr (busy, now, until, last, said, a, b, (_, least, _))) =
      absurd (omega (arith, least))
