-- ===== src/Relay/Watchdog/Tests.antt =====
-- The theorems about the watchdog, at a block with a wrong signature.
use rainbow_bridge.Prelude.{ℕ, zero, suc, ◌≡◌, Bool, true, false, [], arith}
use rainbow_bridge.Prelude.Js.{Result, ok, err, error}
use rainbow_bridge.Robust.Contract.{slow_tx_error_msg}
use rainbow_bridge.Relay.Watchdog.{Chains, Options, State, watch_round}
use rainbow_bridge.Relay.Watchdog.Ends.{watch_round_ends}

abbrev options : Options
options = record { eth_client_address = "0x1"; delay = 10; error_delay = 1 }

abbrev signature : ℕ → Result Bool
signature zero = ok true
signature (suc zero) = err (error "revert No such signature")
signature (suc (suc n)) = ok false

-- The first challenge is slow; the second one succeeds.
abbrev send_second : ℕ → Result (Unit {0})
send_second zero = err (error slow_tx_error_msg)
send_second (suc n) = ok tt

abbrev chains : Chains ℕ
chains = record {
  bridge_state = λ w. (ok (record { num_block_producers = 5; next_valid_at = 7 }), w);
  check_signature = λ i w. (signature i, w);
  get_gas_price = λ w. (ok 1_000_000_000_000, w);
  get_transaction_count = λ w. (ok 3, w);
  send = λ tx w. (send_second w, suc w);
  sleep = λ ms w. w;
}

abbrev start : State ℕ
start = record { world = 0; sent = [] }

price_of : (a b : ℕ) → Path (Result ℕ) (ok a) (ok b) → b ≡ a
price_of a b h = cc

watch_round_ends_example : (watch_round chains options 5 start).0 ≡ true
watch_round_ends_example =
    watch_round_ends chains options 4 start
      (λ w p q. rw (price_of 1_000_000_000_000 p q) (omega arith))
