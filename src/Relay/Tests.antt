-- ===== src/Relay/Tests.antt =====
-- The theorems about the relay, at a concrete chain.
use rainbow_bridge.Prelude.{ℕ, suc, ◌≡◌, refl, false, List, [], ◌∷◌, ◌++◌}
use rainbow_bridge.Prelude.Int.{pos}
use rainbow_bridge.Prelude.Js.{ok}
use rainbow_bridge.Relay.Near2Eth.{
  BridgeState, Block, Options, Act, deposit, add_block, sleep, Chains, State, Next, submitted,
  should_submit, act, ensure_stake, encode_block, sleep_for, submit, try_round, round,
}
use rainbow_bridge.Relay.Near2Eth.Rounds.{RoundSpec, round_lem}
use rainbow_bridge.Relay.Near2Eth.Runs.{Trace, rested, Ended, started, again, run-Trace}

abbrev options : Options
options = record {
  submit_invalid_block = false;
  min_delay = 1;
  max_delay = 10;
  error_delay = 1;
  gas_multiplier = 2;
}

abbrev bridge : BridgeState
bridge = record { current_height = 5; next_timestamp = 3_000_000_000; next_valid_at = 0 }

abbrev block : Block
block = record { height = 9; timestamp = 8_000_000_000; encoded = 1 ∷ 2 ∷ [] }

-- Every question is answered, and every act succeeds; the world counts the acts.
abbrev chains : Chains ℕ
chains = record {
  bridge_state = λ w. (ok bridge, w);
  block_hash = λ height w. (ok "hash", w);
  next_light_client_block = λ hash w. (ok block, w);
  replace_duration = λ w. (ok 2, w);
  lock_eth_amount = λ w. (ok 100, w);
  balance_of_relay = λ w. (ok 0, w);
  gas_price = λ w. (ok 3, w);
  latest_timestamp = λ w. (ok 4, w);
  near_status = λ w. (ok 12, w);
  perform = λ a w. (ok tt, suc w);
  random_index = λ n w. (ok 0, w);
}

abbrev begin : State ℕ
begin = record { world = 0; acts = [] }

round_lem_example :
    (next : Next) × (ys : List Act) × ((round chains options begin).0 ≡ ok next)
    × ((round chains options begin).1.acts ≡ [] ++ ys)
    × RoundSpec chains options next ys
round_lem_example = round_lem chains options begin

-- The stake is deposited, the block submitted, and the relay sleeps.
acts_of_round :
    (round chains options begin).1.acts
    ≡ deposit 100 6 ∷ add_block (1 ∷ 2 ∷ []) 6 ∷ sleep (pos 240000) ∷ []
unfolding round try_round should_submit submit ensure_stake encode_block act sleep_for
acts_of_round = refl

first_round : (round chains options begin).0 ≡ ok submitted
unfolding round try_round should_submit submit ensure_stake encode_block act sleep_for
first_round = refl

-- After a first round, and with the world at 50.
run-Trace_example :
    (n : Next) × ((round chains options
        (record { world = 50; acts = (round chains options begin).1.acts })).0
      ≡ ok n)
    × Trace options rested
        (round chains options
          (record { world = 50; acts = (round chains options begin).1.acts })).1.acts
        (Ended options n)
run-Trace_example =
    run-Trace options chains begin refl
      (record { world = 50; acts = (round chains options begin).1.acts })
      (again submitted 50 started first_round tt)
