-- ===== src/Robust/Contract.antt =====
-- `RobustWeb3.callContract` of utils/robust.js. web3 and the encoding of a call are parameters; the
-- loop takes fuel, since nothing bounds its nonce errors and reconnections.
pub mod Escalation
pub mod Returned
pub mod Events
use rainbow_bridge.Prelude.{
  ℕ, zero, suc, ◌+◌, ◌*◌, ◌^◌, ◌≡◌, String, Bool, Option, none, some, List, [], ◌∷◌, ◌++◌, arith,
  ltb, str_eq, ◌||◌, if◌then◌else◌,
}
use rainbow_bridge.Prelude.Js.{JsError, Result, ok, err, error, to_string, includes}
use rainbow_bridge.Prelude.Async.{Async}

pub record Options : Type 0 where
  pub from : String
  pub handle_revert : Bool
  pub gas : ℕ
  pub gas_price : Option ℕ

pub record Tx : Type 0 where
  pub from : String
  pub to : String
  pub handle_revert : Bool
  pub gas : ℕ
  pub gas_price : ℕ
  pub nonce : ℕ
  pub payload : String

-- web3 over a world `W`. `send` is the race of `sendTransaction` with the five minutes' timeout.
pub record Eth (W Receipt : Type 0) : Type 0 where
  pub get_gas_price : Async W ℕ
  pub get_transaction_count : String → Async W ℕ
  pub call : Tx → Async W (Unit {0})
  pub send : Tx → Async W Receipt
  pub set_provider : W → W

-- The world, and the transactions that were sent to it, the first one first.
pub record State (W : Type 0) : Type 0 where
  pub world : W
  pub sent : List Tx

abbrev pub slow_tx_error_msg : String
slow_tx_error_msg = "transaction not executed within 5 minutes"

-- 10000 * 1e9.
abbrev pub gas_price_limit : ℕ
gas_price_limit = 10000 * 1_000_000_000

-- How the loop goes on after an error.
pub data Reaction : Type 0 where
  double_price next_nonce reconnect give_up : Reaction

unfoldable pub react : JsError → Reaction
react e =
    if str_eq e.message slow_tx_error_msg
    then double_price
    else if includes e.message "the tx doesn't have the correct nonce"
        || includes e.message "replacement transaction underpriced"
    then next_nonce
    else if str_eq (to_string e) "Error: connection not open"
    then reconnect
    else give_up

abbrev price_of : Option ℕ → ℕ → ℕ
price_of none gas_price = gas_price
price_of (some fixed) gas_price = fixed

-- A zero in the options is not taken: `options.gasPrice ? ... : ...`.
abbrev pub truthy_price : Option ℕ → Option ℕ
truthy_price none = none
truthy_price (some zero) = none
truthy_price (some (suc n)) = some (suc n)

unfoldable pub make_tx : Options → String → String → ℕ → ℕ → Tx
make_tx options to payload gas_price nonce = record {
  from = options.from;
  to = to;
  handle_revert = options.handle_revert;
  gas = options.gas;
  gas_price = price_of (truthy_price options.gas_price) gas_price;
  nonce = nonce;
  payload = payload;
}

-- The loop ended with a receipt or an error, or its fuel ran out.
pub data Outcome (Receipt : Type 0) : Type 0 where
  ended : Result Receipt → Outcome Receipt
  running : Outcome Receipt

module _ {W Receipt : Type 0} (eth : Eth W Receipt) (options : Options) (to payload : String) where
  -- The body of the `try`: the view call, whose error is only logged, and the transaction.
  unfoldable pub attempt : ℕ → ℕ → State W → Result Receipt × State W
  attempt gas_price nonce s =
      let tx = make_tx options to payload gas_price nonce in
      let (seen, w) = eth.call tx s.world in
      let (result, w') = eth.send tx w in (result, record { world = w'; sent = s.sent ++ tx ∷ [] })

  -- The `catch`; `loop` is the next round.
  unfoldable pub recover :
      (ℕ → ℕ → State W → Outcome Receipt × State W)
      → JsError
      → ℕ
      → ℕ
      → State W
      → Outcome Receipt × State W
  recover loop e gas_price nonce s = elim (react e) [
    | double_price ↦ loop (gas_price * 2) nonce s
    | next_nonce ↦ loop gas_price (nonce + 1) s
    | reconnect ↦ loop gas_price nonce (record s { world = eth.set_provider s.world })
    | give_up ↦ (ended (err e), s)
  ]

  unfoldable pub after :
      (ℕ → ℕ → State W → Outcome Receipt × State W)
      → Result Receipt
      → ℕ
      → ℕ
      → State W
      → Outcome Receipt × State W
  after loop (ok receipt) gas_price nonce s = (ended (ok receipt), s)
  after loop (err e) gas_price nonce s = recover loop e gas_price nonce s

  unfoldable pub call_loop : ℕ → ℕ → ℕ → State W → Outcome Receipt × State W
  call_loop zero gas_price nonce s = (running, s)
  call_loop (suc fuel) gas_price nonce s =
      let (result, s') = attempt gas_price nonce s in
      if ltb gas_price gas_price_limit
      then after (call_loop fuel) result gas_price nonce s'
      else (ended (err (error "Cannot finish txn within 1e13 gas")), s)

  unfoldable pub call_contract : ℕ → W → Outcome Receipt × State W
  call_contract fuel w =
      let (price, w1) = eth.get_gas_price w in
      let (count, w2) = eth.get_transaction_count options.from w1 in
      elim price [
        | err e ↦ (ended (err e), record { world = w1; sent = [] })
        | ok gas_price ↦ elim count [
          | err e ↦ (ended (err e), record { world = w2; sent = [] })
          | ok nonce ↦ call_loop fuel gas_price nonce (record { world = w2; sent = [] })
        ]
      ]
