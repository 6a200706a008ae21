-- ===== src/Relay/Near2Eth/Start.antt =====
-- `initialize` and `withdraw` of near2eth/near2eth-block-relay/index.js: the first validators and the
-- first block for a contract that has none. The NEAR node and the contract are parameters. Prices
-- are numbers; leaving the process is an ending.
pub mod Sends
pub mod Waits
mod Tests
use rainbow_bridge.Prelude.{
  ℕ, zero, suc, ◌*◌, ◌/◌, ◌≡◌, String, Bool, true, false, Option, none, some, List, if◌then◌else◌,
}
use rainbow_bridge.Prelude.Js.{JsError, Result, ok, err, includes}
use rainbow_bridge.Prelude.Async.{Async, pure, catch, lift, ◌>>=◌, ◌>>◌}
use rainbow_bridge.Borsh.Borshify.{
  Coders, BlockProducer, Block, borshify, borshify_initial_validators,
}

-- What `initialize` calls. `none` is an answer that is empty.
pub record Node (W : Type 0) : Type 0 where
  pub initialized : Async W Bool
  pub latest_height : Async W ℕ
  pub last_final_block : ℕ → Async W String
  pub validators_ordered : String → Async W (Option (List BlockProducer))
  pub next_light_client_block : String → Async W (Option Block)
  pub gas_price : Async W ℕ
  pub init_with_validators : List ℕ → ℕ → Async W (Unit {0})
  pub init_with_block : List ℕ → ℕ → Async W (Unit {0})
  pub withdraw : ℕ → Async W (Unit {0})
  pub sleep : ℕ → W → W

-- It returns, or leaves the process.
pub data Ending : Type 0 where
  returned exited : Ending

unfoldable pub is_underpriced : JsError → Bool
is_underpriced e = includes e.message "replacement transaction underpriced"

-- What the loop leaves in `err`, here `failure`, and in `gasPrice`.
pub record Attempt : Type 0 where
  pub failure : Option JsError
  pub gas_price : ℕ

module _ {W : Type 0} (transact : ℕ → Async W (Unit {0})) where
  -- `for (let i = 0; i < 10; i++)` with `attempts` left. Only an underpriced transaction is tried
  -- again.
  unfoldable pub attempt : ℕ → ℕ → W → Attempt × W
  attempt zero price w = (record { failure = none; gas_price = price }, w)
  attempt (suc attempts) price w = elim (transact price w).0 [
    | ok u ↦ (record { failure = none; gas_price = price }, (transact price w).1)
    | err e ↦ elim (is_underpriced e) [
      | true ↦ attempt attempts (price * 11 / 10) (transact price w).1
      | false ↦ (record { failure = some e; gas_price = price }, (transact price w).1)
    ]
  ]

  abbrev pub attempted : ℕ → Async W Attempt
  attempted price w = let (a, w') = attempt 10 price w in (ok a, w')

module _ {W : Type 0} (coders : Coders) (node : Node W) (gas_multiplier : ℕ) where
  -- `while (lodash.isEmpty(lightClientBlock))`; `none` is out of fuel.
  unfoldable pub wait_for_block : ℕ → String → Async W (Option (List BlockProducer × Block))
  wait_for_block zero hash = pure none
  wait_for_block (suc fuel) hash = do
    validators ← node.validators_ordered hash
    elim validators [
      | none ↦ λ w. wait_for_block fuel hash (node.sleep 300 w)
      | some vs ↦ (do
        answer ← node.next_light_client_block hash
        elim answer [
          | none ↦ λ w. wait_for_block fuel hash (node.sleep 300 w)
          | some block ↦ pure (some (vs, block))
        ])
    ]

  abbrev pub multiplied_price : Async W ℕ
  multiplied_price = do price ← node.gas_price; pure (price * gas_multiplier)

  -- The price that the loop raises is not the one sent: each try asks again.
  abbrev pub transact_block : List ℕ → ℕ → Async W (Unit {0})
  transact_block bytes price = do asked ← multiplied_price; node.init_with_block bytes asked

  -- `if (err) process.exit(1)`.
  abbrev pub unless_failed : Option JsError → Async W Ending → Async W Ending
  unless_failed none m = m
  unless_failed (some e) m = pure exited

  unfoldable pub send_block : List ℕ → ℕ → Async W Ending
  send_block bytes price = do
    a ← attempted (transact_block bytes) price
    unless_failed a.failure (pure returned)

  unfoldable pub send_encoded : Block → ℕ → Async W Ending
  send_encoded block price = do
    borsh_block ← lift (borshify coders block)
    send_block borsh_block price

  unfoldable pub send_both : List BlockProducer → Block → Async W Ending
  send_both validators block = do
    borsh_validators ← lift (borshify_initial_validators coders validators)
    price ← multiplied_price
    a ← attempted (node.init_with_validators borsh_validators) price
    unless_failed a.failure (send_encoded block a.gas_price)

  abbrev pub send_found : Option (List BlockProducer × Block) → Async W (Option Ending)
  send_found none = pure none
  send_found (some (validators, block)) = do ending ← send_both validators block; pure (some ending)

  unfoldable pub first_initialize : ℕ → Async W (Option Ending)
  first_initialize fuel = do
    height ← node.latest_height
    hash ← node.last_final_block height
    found ← wait_for_block fuel hash
    send_found found

  unfoldable pub try_initialize : ℕ → Async W (Option Ending)
  try_initialize fuel = do
    is_initialized ← node.initialized
    if is_initialized then pure (some returned) else first_initialize fuel

  unfoldable pub initialize : ℕ → Async W (Option Ending)
  initialize fuel = catch (try_initialize fuel) (λ e. pure (some exited))

  unfoldable pub withdraw : Async W (Unit {0})
  withdraw = do price ← multiplied_price; node.withdraw price
