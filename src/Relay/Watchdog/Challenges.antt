-- ===== src/Relay/Watchdog/Challenges.antt =====
-- What the watchdog sends in a round.
use rainbow_bridge.Prelude.{ℕ, ◌*◌, ◌<◌, ◌≡◌, ◌⊎◌, false, List, [], ◌∷◌, ◌++◌}
use rainbow_bridge.Prelude.Js.{ok}
use rainbow_bridge.Robust.Contract.{gas_price_limit}
use rainbow_bridge.Relay.Watchdog.{Challenge, Chains, Options, State, challenge_tx}

module _ {W : Type 0} (chains : Chains W) (options : Options) where
  -- Challenges of one signature with one nonce, each at twice the price of the one before and below
  -- the limit.
  pub data Raises (index nonce : ℕ) : ℕ → List Challenge → Type 0 where
    none_sent : {p : ℕ} → Raises index nonce p []
    raised :
        {p : ℕ} {txs : List Challenge}
        → p < gas_price_limit
        → Raises index nonce (p * 2) txs
        → Raises index nonce p (challenge_tx chains options index nonce p ∷ txs)

  -- Nothing, or challenges of one signature below `bound` that the contract called wrong.
  abbrev pub ChallengesOne : ℕ → List Challenge → Type 0
  ChallengesOne bound txs =
      (txs ≡ [])
      ⊎ ((index nonce price : ℕ) × (index < bound)
          × ((w : W) × ((chains.check_signature index w).0 ≡ ok false))
          × Raises index nonce price txs)

  abbrev Adds : (List Challenge → Type 0) → State W → State W → Type 0
  Adds P s s' = (txs : List Challenge) × (s'.sent ≡ s.sent ++ txs) × P txs
