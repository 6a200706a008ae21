-- ===== src/Relay/Near2Eth/Start/Sends.antt =====
-- When `initialize` returns, and what it has sent then.
use rainbow_bridge.Prelude.{ℕ, zero, suc, ◌*◌, ◌/◌, ◌≡◌, String, true, some, List}
use rainbow_bridge.Prelude.Js.{JsError, ok, err}
use rainbow_bridge.Prelude.Async.{Async}
use rainbow_bridge.Borsh.Borshify.{
  Coders, BlockProducer, Block, borshify, borshify_initial_validators,
}
use rainbow_bridge.Relay.Near2Eth.Rules.{Said}
use rainbow_bridge.Relay.Near2Eth.Start.{
  Node, is_underpriced, wait_for_block, multiplied_price, transact_block,
}

-- The tries of a transaction from a price on, none of which fails but by a price that is too low. One
-- succeeds, or all are too low; each is sent at a price a tenth above the one before.
pub data Tries {W : Type 0} (transact : ℕ → Async W (Unit {0})) : ℕ → ℕ → W → W → Type 0 where
  sent :
      {n price : ℕ} {w : W}
      → (transact price w).0 ≡ ok tt
      → Tries transact (suc n) price w (transact price w).1
  raised :
      {n price : ℕ} {w w' : W} (e : JsError)
      → (transact price w).0 ≡ err e
      → is_underpriced e ≡ true
      → Tries transact n (price * 11 / 10) (transact price w).1 w'
      → Tries transact (suc n) price w w'
  all_low : {price : ℕ} {w : W} → Tries transact zero price w w

module _ {W : Type 0} (coders : Coders) (node : Node W) (gas_multiplier : ℕ) where
  -- The contract is sent the validators and the block that the NEAR node gave after a final block,
  -- both in their encoding, the validators first.
  pub record First : Type 0 where
    pub height : ℕ
    pub hash : String
    pub validators : List BlockProducer
    pub block : Block
    pub price : ℕ
    pub later_price : ℕ
    pub borsh_validators : List ℕ
    pub borsh_block : List ℕ
    pub said_height : Said node.latest_height height
    pub said_hash : Said (node.last_final_block height) hash
    pub said_validators : Said (node.validators_ordered hash) (some validators)
    pub said_block : Said (node.next_light_client_block hash) (some block)
    pub said_price : Said (multiplied_price coders node gas_multiplier) price
    pub encodes_validators : borshify_initial_validators coders validators ≡ ok borsh_validators
    pub encodes_block : borshify coders block ≡ ok borsh_block
    pub sends :
        (w w' w'' : W) × Tries (node.init_with_validators borsh_validators) 10 price w w'
        × Tries (transact_block coders node gas_multiplier borsh_block) 10 later_price w' w''

  -- The two answers with which the waiting ends.
  abbrev Found : String → List BlockProducer × Block → Type 0
  Found hash found =
      Said (node.validators_ordered hash) (some found.0)
      × Said (node.next_light_client_block hash) (some found.1)

  abbrev Later : ℕ → String → List BlockProducer × Block → Type 0
  Later fuel hash found =
      (w' : W)
      → (wait_for_block coders node gas_multiplier fuel hash w').0 ≡ ok (some found)
      → Found hash found
