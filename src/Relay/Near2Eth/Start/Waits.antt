-- ===== src/Relay/Near2Eth/Start/Waits.antt =====
-- `initialize` waits as long as the NEAR node has no block after the final one.
use rainbow_bridge.Prelude.{ℕ, zero, suc, ◌<◌, ◌≡◌, refl, arith, String, false, none, some, List}
use rainbow_bridge.Prelude.Js.{Result, ok, err}
use rainbow_bridge.Borsh.Borshify.{Coders, BlockProducer, Block}
use rainbow_bridge.Relay.Near2Eth.Start.{
  Node, Ending, exited, wait_for_block, send_both, first_initialize, try_initialize, initialize,
}

module _ {W : Type 0} (coders : Coders) (node : Node W) (gas_multiplier : ℕ) where
  -- The node is asked this many times, has no validators or no block, and each time 300
  -- milliseconds pass.
  pub data Waits (hash : String) : ℕ → W → W → Type 0 where
    ready : {w : W} → Waits hash zero w w
    no_validators :
        {n : ℕ} {w w1 w' : W}
        → node.validators_ordered hash w ≡ (ok none, w1)
        → Waits hash n (node.sleep 300 w1) w'
        → Waits hash (suc n) w w'
    no_block :
        {n : ℕ} {w w1 w2 w' : W} (validators : List BlockProducer)
        → node.validators_ordered hash w ≡ (ok (some validators), w1)
        → node.next_light_client_block hash w1 ≡ (ok none, w2)
        → Waits hash n (node.sleep 300 w2) w'
        → Waits hash (suc n) w w'

  -- What `initialize` makes of an error.
  abbrev pub settled_ending : Result Ending → Ending
  settled_ending (ok ending) = ending
  settled_ending (err e) = exited

  module _ (hash : String) (validators : List BlockProducer) (block : Block) (w1 w2 w3 : W)
      (said_validators : node.validators_ordered hash w1 ≡ (ok (some validators), w2))
      (said_block : node.next_light_client_block hash w2 ≡ (ok (some block), w3)) where
    wait_for_block_lem :
        (waits fuel : ℕ) (w : W)
        → waits < fuel
        → Waits hash waits w w1
        → wait_for_block coders node gas_multiplier fuel hash w
          ≡ (ok (some (validators, block)), w3)
    unfolding wait_for_block
    wait_for_block_lem waits zero w few more = absurd (omega arith)
    wait_for_block_lem zero (suc fuel) w few ready = rw said_validators (rw said_block refl)
    wait_for_block_lem (suc n) (suc fuel) w few (no_validators q more) =
        rw q (wait_for_block_lem n fuel _ (omega arith) more)
    wait_for_block_lem (suc n) (suc fuel) w few (no_block vs q k more) =
        rw q (rw k (wait_for_block_lem n fuel _ (omega arith) more))

    -- Where the contract is not initialized and the node names its last final block, `initialize`
    -- goes on once the node has validators and a block for it, however many times it had none before:
    -- it ends as the sending of these two ends, where an error leaves the process.
    pub initialize-Waits :
        (waits fuel height : ℕ) (w wa wb wc : W)
        → waits < fuel
        → node.initialized w ≡ (ok false, wa)
        → node.latest_height wa ≡ (ok height, wb)
        → node.last_final_block height wb ≡ (ok hash, wc)
        → Waits hash waits wc w1
        → (initialize coders node gas_multiplier fuel w).0
          ≡ ok (some (settled_ending (send_both coders node gas_multiplier validators block w3).0))
    unfolding initialize try_initialize first_initialize
    initialize-Waits waits fuel height w wa wb wc few a b c more =
        let found = wait_for_block_lem waits fuel wc few more in
        go (send_both coders node gas_multiplier validators block w3).0 refl found
      where
        go :
            (r : Result Ending)
            → (send_both coders node gas_multiplier validators block w3).0 ≡ r
            → wait_for_block coders node gas_multiplier fuel hash wc
              ≡ (ok (some (validators, block)), w3)
            → (initialize coders node gas_multiplier fuel w).0
              ≡ ok (
                  some
                    (settled_ending (send_both coders node gas_multiplier validators block w3).0))
        go (ok e) q found =
            rw (a, initialize) (rw (b, first_initialize) (rw c (rw (found) (rw q refl))))
        go (err e) q found =
            rw (a, initialize) (rw (b, first_initialize) (rw c (rw (found) (rw q refl))))
