-- ===== src/Relay/Eth2Near/Fork.antt =====
-- A round of the relay to NEAR starts its batch at the fork.
use rainbow_bridge.Prelude.{ℕ, ◌≡◌, ◌⊎◌, Bool, Option, List, length}
use rainbow_bridge.Prelude.Int.{ℤ, pos, ◌+ℤ◌, ◌-ℤ◌, ◌≤ℤ◌, ◌<ℤ◌, pos_part}
use rainbow_bridge.Prelude.Js.{Result}
use rainbow_bridge.Relay.Eth2Near.{Relay, Chains}
use rainbow_bridge.Relay.Eth2Near.Asked.{Settles, Parsed, Made, Unmade}
use rainbow_bridge.Relay.Eth2Near.Header.{ParsedBlock}

module _ {W EthBlock : Type 0} (chains : Chains W EthBlock) (relay : Relay)
    (make_args : Option ParsedBlock → Result (List ℕ)) where
  -- The end of the batch: the next block at the beginning, else the least of the batch's full size and
  -- the chain's end.
  abbrev pub IsEnd : ℤ → ℤ → ℤ → Type 0
  IsEnd client chain last =
      ((client <ℤ pos 5) × (last ≡ client +ℤ pos 1))
      ⊎ ((pos 5 ≤ℤ client)
          × (last ≤ℤ client +ℤ relay.total_submit_block)
          × (last ≤ℤ chain)
          × ((last ≡ client +ℤ relay.total_submit_block) ⊎ (last ≡ chain)))

  -- From a world to the next, the blocks above `client` up to the batch's end were parsed in order, and
  -- their actions were sent, all at once and in this order; or a block had no action, and nothing was.
  abbrev pub Sends : ℤ → ℤ → W → W → Type 0
  Sends client chain w w' =
      (last : ℤ) × (blocks : List (Option ParsedBlock)) × (v : W) × IsEnd client chain last
      × (length blocks ≡ pos_part (last -ℤ client))
      × Parsed chains relay make_args (client +ℤ pos 1) blocks w v
      × (((actions : List (List ℕ)) × Made chains relay make_args blocks actions
            × (w' ≡ (chains.send actions v).1))
          ⊎ (Unmade chains relay make_args blocks × (w' ≡ v)))

  -- The rest of a round: a batch where the client is behind the chain, else a sleep of ten seconds.
  abbrev pub Follows : ℤ → ℤ → W → W → Type 0
  Follows client chain w w' =
      ((client <ℤ chain) × Sends client chain w w')
      ⊎ ((chain ≤ℤ client) × (w' ≡ chains.sleep 10000 w))

  -- In every world of an invariant, each question whether the client has the chain's block at a number
  -- is settled within `fuel` tries, and the answer is `common`.
  abbrev pub SettlesAs : ℕ → (W → Type 0) → (ℤ → Bool) → Type 0
  SettlesAs fuel Inv common =
      (number : ℤ) (w : W)
      → Inv w
      → (w' : W) × Settles chains relay make_args number fuel w (common number) w' × Inv w'
