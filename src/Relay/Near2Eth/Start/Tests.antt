-- ===== src/Relay/Near2Eth/Start/Tests.antt =====
-- The theorems about `initialize`, at a node that has its answers late.
use rainbow_bridge.Prelude.{
  ℕ, zero, suc, ◌≡◌, refl, arith, false, Option, none, some, List, [], ◌∷◌,
}
use rainbow_bridge.Prelude.Js.{Result, ok, err, error}
use rainbow_bridge.Borsh.Borshify.{BlockProducer, Block}
use rainbow_bridge.Borsh.Tests.{coders, block, second_version}
use rainbow_bridge.Relay.Near2Eth.Start.{Node, send_both, initialize}
use rainbow_bridge.Relay.Near2Eth.Start.Waits.{
  ready, no_validators, no_block, settled_ending, initialize-Waits,
}

abbrev validators : List BlockProducer
validators = second_version ∷ []

-- The validators come after one pause, the block after two.
abbrev late_validators : ℕ → Option (List BlockProducer)
late_validators zero = none
late_validators (suc w) = some validators

abbrev late_block : ℕ → Option Block
late_block zero = none
late_block (suc zero) = none
late_block (suc (suc w)) = some block

-- A transaction is accepted from a price of eleven on.
abbrev accepts : ℕ → Result (Unit {0})
accepts (suc (suc (suc (suc (suc (suc (suc (suc (suc (suc (suc n))))))))))) = ok tt
accepts n = err (error "replacement transaction underpriced")

abbrev late_node : Node ℕ
late_node = record {
  initialized = λ w. (ok false, w);
  latest_height = λ w. (ok 10, w);
  last_final_block = λ height w. (ok "hash", w);
  validators_ordered = λ hash w. (ok (late_validators w), w);
  next_light_client_block = λ hash w. (ok (late_block w), w);
  gas_price = λ w. (ok 10, w);
  init_with_validators = λ bytes price w. (accepts price, w);
  init_with_block = λ bytes price w. (ok tt, w);
  withdraw = λ price w. (ok tt, w);
  sleep = λ ms w. suc w;
}

initialize-Waits_example :
    (initialize coders late_node 1 4 0).0
    ≡ ok (
        some
          (settled_ending coders late_node 1 (send_both coders late_node 1 validators block 2).0))
initialize-Waits_example =
    initialize-Waits coders late_node 1 "hash" validators block 2 2 2 refl refl 2 4 10 0 0 0 0
      (omega arith) refl refl refl (no_validators refl (no_block validators refl refl ready))
