-- ===== src/Relay/Watchdog.antt =====
-- `run` of near2eth/watchdog/index.js, round by round. web3 and the contract are parameters; signing and
-- sending a transaction are one call. The loop over gas prices takes fuel, since a price of 0 never
-- grows.
pub mod Challenges
pub mod Ends
mod Tests
use rainbow_bridge.Prelude.{
  ℕ, zero, suc, ◌+◌, ◌*◌, String, Bool, true, false, List, [], ◌∷◌, ◌++◌, ltb, ◌==◌, str_eq,
}
use rainbow_bridge.Prelude.Js.{JsError, Result, ok, err, ends_with}
use rainbow_bridge.Prelude.Async.{Async}
use rainbow_bridge.Robust.Contract.{slow_tx_error_msg, gas_price_limit}

pub record BridgeState : Type 0 where
  pub num_block_producers : ℕ
  pub next_valid_at : ℕ

-- A challenge of the signature `index`. `from` is `undefined`: an address has no `address`.
pub record Challenge : Type 0 where
  pub to : String
  pub gas_limit : ℕ
  pub gas_price : ℕ
  pub nonce : ℕ
  pub index : ℕ

pub record Chains (W : Type 0) : Type 0 where
  pub bridge_state : Async W BridgeState
  pub check_signature : ℕ → Async W Bool
  pub get_gas_price : Async W ℕ
  pub get_transaction_count : Async W ℕ
  -- The race of `sendSignedTransaction` with the five minutes' timeout.
  pub send : Challenge → Async W (Unit {0})
  pub sleep : ℕ → W → W

pub record Options : Type 0 where
  pub eth_client_address : String
  pub delay : ℕ
  pub error_delay : ℕ

-- The world, and the challenges that were sent, the first one first.
pub record State (W : Type 0) : Type 0 where
  pub world : W
  pub sent : List Challenge

module _ {W : Type 0} (chains : Chains W) (options : Options) where
  abbrev pub challenge_tx : ℕ → ℕ → ℕ → Challenge
  challenge_tx index nonce gas_price = record {
    to = options.eth_client_address;
    gas_limit = 2000000;
    gas_price = gas_price;
    nonce = nonce;
    index = index;
  }

  unfoldable pub send_challenge : ℕ → ℕ → ℕ → State W → Result (Unit {0}) × State W
  send_challenge index nonce gas_price s =
      let tx = challenge_tx index nonce gas_price in
      let (r, w) = chains.send tx s.world in (r, record { world = w; sent = s.sent ++ tx ∷ [] })

  -- `while (gasPrice < 10000 * 1e9)`; whether it ended within the fuel. Its errors are only logged.
  unfoldable pub challenge_loop : ℕ → ℕ → ℕ → ℕ → State W → Bool × State W
  challenge_loop zero index nonce gas_price s = (false, s)
  challenge_loop (suc fuel) index nonce gas_price s = elim (ltb gas_price gas_price_limit) [
    | false ↦ (true, s)
    | true ↦ elim (send_challenge index nonce gas_price s).0 [
      | ok u ↦ (true, (send_challenge index nonce gas_price s).1)
      | err e ↦ elim (str_eq e.message slow_tx_error_msg) [
        | true ↦
            challenge_loop fuel index nonce (gas_price * 2)
              (send_challenge index nonce gas_price s).1
        | false ↦ (true, (send_challenge index nonce gas_price s).1)
      ]
    ]
  ]

  unfoldable pub challenge : ℕ → ℕ → State W → Bool × State W
  challenge fuel index s =
      let (price, w1) = chains.get_gas_price s.world in
      let (count, w2) = chains.get_transaction_count w1 in
      elim price [
        | err e ↦ (true, record s { world = w1 })
        | ok gas_price ↦ elim count [
          | err e ↦ (true, record s { world = w2 })
          | ok nonce ↦ challenge_loop fuel index nonce gas_price (record s { world = w2 })
        ]
      ]

  -- The loop over the signatures with `left` to go: whether it ended within the fuel, and threw.
  unfoldable pub check_from : ℕ → ℕ → ℕ → State W → Bool × Result (Unit {0}) × State W
  check_from fuel zero i s = (true, ok tt, s)
  check_from fuel (suc left) i s =
      let (r, w) = chains.check_signature i s.world in
      elim r [
        | ok good ↦ elim good [
          | true ↦ check_from fuel left (i + 1) (record s { world = w })
          | false ↦ let (done, s') = challenge fuel i (record s { world = w }) in (done, ok tt, s')
        ]
        | err e ↦ elim (ends_with e.message "No such signature") [
          | true ↦ check_from fuel left (i + 1) (record s { world = w })
          | false ↦ (true, err e, record s { world = w })
        ]
      ]

  abbrev pub sleep_after : Result (Unit {0}) → State W → State W
  sleep_after (ok u) s = record s { world = chains.sleep (options.delay * 1000) s.world }
  sleep_after (err e) s = record s { world = chains.sleep (options.error_delay * 1000) s.world }

  unfoldable pub check_block : ℕ → BridgeState → State W → Bool × Result (Unit {0}) × State W
  check_block fuel bridge s = elim (bridge.next_valid_at == 0) [
    | true ↦ (true, ok tt, s)
    | false ↦ check_from fuel bridge.num_block_producers 0 s
  ]

  -- One iteration of `while (true)`.
  unfoldable pub watch_round : ℕ → State W → Bool × State W
  watch_round fuel s =
      let (bridge, w) = chains.bridge_state s.world in
      elim bridge [
        | err e ↦ (true, sleep_after (err e) (record s { world = w }))
        | ok b ↦
            let (done, r, s') = check_block fuel b (record s { world = w }) in
            (done, sleep_after r s')
      ]
