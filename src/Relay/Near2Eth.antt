-- ===== src/Relay/Near2Eth.antt =====
-- `runInternal` of near2eth/near2eth-block-relay/index.js, round by round. The contract, the NEAR
-- node, web3 and the borsh encoding of the block are parameters. Seconds are integers; BN's numbers
-- and the decimal texts that web3 returns are the numbers that they stand for.
pub mod Delay
pub mod Rules
pub mod Rounds
pub mod Runs
pub mod Start
use rainbow_bridge.Prelude.{
  ℕ, zero, suc, ◌+◌, ◌*◌, ◌%◌, ◌≡◌, String, Bool, true, false, ◌&&◌, ◌||◌, Option, none, some, List,
  [], ◌∷◌, ◌++◌, arith, length, ltb, ◌==◌, if◌then◌else◌,
}
use rainbow_bridge.Prelude.Int.{ℤ, pos, negsuc, ◌+ℤ◌, ◌-ℤ◌, ltb_ℤ, min_ℤ, max_ℤ, trunc_div}
use rainbow_bridge.Prelude.Js.{JsError, Result, ok, err}
use rainbow_bridge.Prelude.Async.{Async, pure, catch, change, ◌>>=◌, ◌>>◌}

pub record BridgeState : Type 0 where
  pub current_height : ℕ
  pub next_timestamp : ℕ
  pub next_valid_at : ℕ

-- A light client block, as far as the loop looks at it; `encoded` is `borshify(lastBlock)`.
pub record Block : Type 0 where
  pub height : ℕ
  pub timestamp : ℕ
  pub encoded : List ℕ

pub record Options : Type 0 where
  pub submit_invalid_block : Bool
  pub min_delay : ℕ
  pub max_delay : ℕ
  pub error_delay : ℕ
  pub gas_multiplier : ℕ

-- The transactions sent, and the sleeps in milliseconds.
pub data Act : Type 0 where
  deposit : ℕ → ℕ → Act
  add_block : List ℕ → ℕ → Act
  sleep : ℤ → Act

pub record Chains (W : Type 0) : Type 0 where
  pub bridge_state : Async W BridgeState
  pub block_hash : ℕ → Async W String
  pub next_light_client_block : String → Async W Block
  pub replace_duration : Async W ℕ
  pub lock_eth_amount : Async W ℕ
  pub balance_of_relay : Async W ℕ
  pub gas_price : Async W ℕ
  pub latest_timestamp : Async W ℕ
  pub near_status : Async W ℕ
  -- The outcome of an act on the chains; of a sleep, that time passes.
  pub perform : Act → Async W (Unit {0})
  -- `Math.floor(length * Math.random())`, for a length.
  pub random_index : ℕ → Async W ℕ

pub record State (W : Type 0) : Type 0 where
  pub world : W
  pub acts : List Act

-- How a round ends: it goes on, or leaves the process.
pub data Next : Type 0 where
  submitted : Next
  waited : ℤ → Next
  exited : Next
  failed : Next

-- `nextTimestamp + replaceDuration - timestamp`, in nanoseconds.
abbrev pub replace_delay : BridgeState → ℕ → Block → ℤ
replace_delay s duration block = pos (s.next_timestamp + duration) -ℤ pos block.timestamp

-- The tests before a submission.
unfoldable pub should_submit : BridgeState → ℕ → Block → Bool
should_submit s duration block =
    ltb s.current_height block.height
    && (s.next_valid_at == 0 || ltb_ℤ (replace_delay s duration block) (pos 1))

-- `1000 * delay`.
unfoldable pub milliseconds : ℤ → ℤ
milliseconds (pos n) = pos (1000 * n)
milliseconds (negsuc n) = negsuc (1000 * n + 999)

-- The delay in seconds, from the time of the latest block.
unfoldable pub delay_from : Options → BridgeState → ℕ → Block → ℕ → ℤ
delay_from options s duration block now =
    max_ℤ
      (min_ℤ (min_ℤ (pos options.max_delay) (pos s.next_valid_at -ℤ pos now))
        (trunc_div (replace_delay s duration block) 1_000_000_000))
      (pos options.min_delay)

-- `bytes[i] += 1` on a buffer, where a byte wraps and a place outside is not written.
unfoldable pub count_up : List ℕ → ℕ → List ℕ
count_up [] i = []
count_up (b ∷ bs) zero = (b + 1) % 256 ∷ bs
count_up (b ∷ bs) (suc i) = b ∷ count_up bs i

module _ {W : Type 0} (chains : Chains W) (options : Options) where
  abbrev pub ask : {A : Type 0} → Async W A → Async (State W) A
  ask m s = let (r, w) = m s.world in (r, record s { world = w })

  -- An act is noted whether or not it succeeds.
  unfoldable pub act : Act → Async (State W) (Unit {0})
  act a s =
      let (r, w) = chains.perform a s.world in (r, record { world = w; acts = s.acts ++ a ∷ [] })

  unfoldable pub ensure_stake : Async (State W) (Unit {0})
  ensure_stake = do
    amount ← ask chains.lock_eth_amount
    balance ← ask chains.balance_of_relay
    if balance == 0
        then (do
          price ← ask chains.gas_price
          act (deposit amount (price * options.gas_multiplier)))
        else pure tt

  unfoldable pub encode_block : Block → Async (State W) (List ℕ)
  encode_block block =
      if options.submit_invalid_block
      then (do
        i ← ask (chains.random_index (length block.encoded))
        pure (count_up block.encoded i))
      else pure block.encoded

  -- A sleep cannot fail.
  unfoldable pub sleep_for : ℤ → Async (State W) (Unit {0})
  sleep_for ms s = (ok tt, (act (sleep ms) s).1)

  unfoldable pub submit : Block → Async (State W) Next
  submit block = do
    ensure_stake
    borsh_block ← encode_block block
    price ← ask chains.gas_price
    act (add_block borsh_block (price * options.gas_multiplier))
    if options.submit_invalid_block
        then pure exited
        else (do sleep_for (pos 240000); pure submitted)

  unfoldable pub find_delay : BridgeState → ℕ → Block → Async (State W) ℤ
  find_delay s duration block =
      if s.next_valid_at == 0
      then pure (max_ℤ (pos options.max_delay) (pos options.min_delay))
      else (do now ← ask chains.latest_timestamp; pure (delay_from options s duration block now))

  unfoldable pub wait_for_next : BridgeState → ℕ → Block → Async (State W) Next
  wait_for_next s duration block = do
    delay ← find_delay s duration block
    ask chains.near_status
    sleep_for (milliseconds delay)
    pure (waited delay)

  unfoldable pub try_round : Async (State W) Next
  try_round = do
    s ← ask chains.bridge_state
    hash ← ask (chains.block_hash s.current_height)
    block ← ask (chains.next_light_client_block hash)
    duration ← ask chains.replace_duration
    if should_submit s duration block then submit block else wait_for_next s duration block

  -- One iteration of `while (true)`.
  unfoldable pub round : Async (State W) Next
  round = catch try_round (λ e. do sleep_for (pos (1000 * options.error_delay)); pure failed)
