-- ===== src/Relay/Eth2Near.antt =====
-- `Eth2NearRelay` of eth2near/eth2near-block-relay/index.js: `initialize`, `getParseBlock` and one round of
-- `run`. The client contract, the Ethereum node and ethashproof are parameters. Block numbers are
-- integers, since the predicate is asked about numbers beyond the chain's ends.
pub mod Header
pub mod Batch
pub mod Fork
pub mod Asked
mod Tests
use rainbow_bridge.Prelude.{
  ℕ, zero, suc, ◌+◌, ◌/◌, ◌≡◌, String, Bool, true, false, Option, none, some, List, [], ◌∷◌, ◌++◌,
  map, arith, ◌==◌, str_eq, ◌||◌, if◌then◌else◌,
}
use rainbow_bridge.Prelude.Int.{ℤ, pos, ◌+ℤ◌, ◌-ℤ◌, ltb_ℤ, min_ℤ, pos_part}
use rainbow_bridge.Prelude.Js.{JsError, Result, ok, err, error}
use rainbow_bridge.Prelude.Async.{Async, pure, catch, ◌>>=◌}
use rainbow_bridge.Borsh.Codec.{Library, Schema}
use rainbow_bridge.Client.EthBlocks.{get_eth_block}
use rainbow_bridge.Relay.Eth2Near.Header.{ParsedBlock, all_ok, submit_block}
use rainbow_bridge.Search.Asking.{Asking, asking_search}

abbrev pub max_gas_per_block : ℕ
max_gas_per_block = 300_000_000_000_000

pub record Relay : Type 0 where
  pub gas_per_transaction : ℕ
  pub total_submit_block : ℤ

-- `none` is a number of blocks that `parseInt` does not read. BN's `div` by zero throws.
unfoldable pub initialize : ℕ → Option ℤ → Result Relay
initialize gas none =
    if gas == 0 then err (error "Assertion failed") else err (error "Invalid total-submit-block")
initialize gas (some total) =
    if gas == 0
    then err (error "Assertion failed")
    else if ltb_ℤ (pos (max_gas_per_block / gas)) total
    then err (error "total-submit-block is too large")
    else ok (record { gas_per_transaction = gas; total_submit_block = total })

pub record Chains (W EthBlock : Type 0) : Type 0 where
  pub last_block_number : Async W ℕ
  pub get_block_number : Async W ℕ
  pub block_hash_of : EthBlock → String
  pub known_hashes : ℤ → Async W (List String)
  pub post : ℤ → Async W (Option EthBlock)
  pub block_to_rlp : Option EthBlock → Async W String
  -- ethashproof's output, parsed.
  pub ethashproof : String → Async W ParsedBlock
  pub send : List (List ℕ) → Async W (Unit {0})
  pub sleep : ℕ → W → W

-- `hashes.find((x) => x === hash)`.
unfoldable pub find_hash : List String → String → Bool
find_hash [] hash = false
find_hash (x ∷ hashes) hash = str_eq x hash || find_hash hashes hash

-- The end of the next batch.
unfoldable pub end_block : ℤ → ℤ → ℤ → ℤ
end_block total client chain =
    if ltb_ℤ client (pos 5) then client +ℤ pos 1 else min_ℤ (client +ℤ total) chain

-- `for (let i = first; ...; i++)`, over the rounds.
unfoldable pub numbers_from : ℤ → ℕ → List ℤ
numbers_from first zero = []
numbers_from first (suc n) = first ∷ numbers_from (first +ℤ pos 1) n

-- The numbers above `client` up to `last`.
abbrev pub numbers_between : ℤ → ℤ → List ℤ
numbers_between client last = numbers_from (client +ℤ pos 1) (pos_part (last -ℤ client))

-- The loop's variable, and the world.
pub record State (W : Type 0) : Type 0 where
  pub world : W
  pub previous : Option ℤ

module _ {W EthBlock : Type 0} (chains : Chains W EthBlock) (relay : Relay)
    (make_args : Option ParsedBlock → Result (List ℕ)) where
  abbrev pub try_parse_block : ℤ → Async W (Option ParsedBlock)
  try_parse_block number = do
    block ← get_eth_block chains.post chains.sleep number
    rlp ← chains.block_to_rlp block
    parsed ← chains.ethashproof rlp
    pure (some parsed)

  -- A block that cannot be got or parsed is `undefined`.
  unfoldable pub get_parse_block : ℤ → Async W (Option ParsedBlock)
  get_parse_block number = catch (try_parse_block number) (λ e. pure none)

  -- `Promise.all`, one after the other.
  unfoldable pub parse_all : List ℤ → Async W (List (Option ParsedBlock))
  parse_all [] = pure []
  parse_all (i ∷ is) = do block ← get_parse_block i; blocks ← parse_all is; pure (block ∷ blocks)

  -- Whether the client has the chain's hash at a number; `none` is no answer within this many tries,
  -- since a block that is not ready and an error are tried again without end.
  unfoldable pub predicate : ℕ → ℤ → ℤ → Asking W Bool
  predicate zero client value w = (none, w)
  predicate (suc fuel) client value w =
      let (answer, w1) = get_eth_block chains.post chains.sleep (client -ℤ value) w in
      elim answer [
        | err e ↦ predicate fuel client value w1
        | ok found ↦ elim found [
          | none ↦ predicate fuel client value (chains.sleep 3000 w1)
          | some block ↦
              let (hashes, w2) = chains.known_hashes (client -ℤ value) w1 in
              elim hashes [
                | err e ↦ predicate fuel client value w2
                | ok known ↦ (some (find_hash known (chains.block_hash_of block)), w2)
              ]
        ]
      ]

  abbrev pub estimate : Option ℤ → ℤ → ℤ
  estimate none client = pos 0
  estimate (some previous) client = client -ℤ (previous +ℤ relay.total_submit_block)

  -- One transaction with all actions; its error is only logged.
  abbrev pub send_batch : Result (List (List ℕ)) → State W → State W
  send_batch (err e) s = s
  send_batch (ok actions) s = record s { world = (chains.send actions s.world).1 }

  -- The body of the second `try`. Its `catch` only logs.
  unfoldable pub submit_batch : ℤ → ℤ → State W → State W
  submit_batch client chain s =
      let (blocks, w) =
        parse_all (numbers_between client (end_block relay.total_submit_block client chain))
          s.world in
      elim blocks [
        | err e ↦ record s { world = w }
        | ok bs ↦ send_batch (all_ok (map make_args bs)) (record s { world = w })
      ]

  unfoldable pub relay_from : ℤ → ℤ → State W → State W
  relay_from client chain s =
      let at_client : State W = record s { previous = some client } in
      elim (ltb_ℤ client chain) [
        | true ↦ submit_batch client chain at_client
        | false ↦ record at_client { world = chains.sleep 10000 s.world }
      ]

  abbrev after_search : ℤ → ℤ → Option ℤ × W → State W → Option (State W)
  after_search client chain (none, w) s = none
  after_search client chain (some delta, w) s =
      some (relay_from (client -ℤ delta) chain (record s { world = w }))

  -- The round once both numbers are known; `none` is a search that has not ended with this fuel for
  -- each question.
  unfoldable pub round_at : ℕ → W → ℕ → ℕ → State W → Option (State W)
  round_at fuel w client chain s =
      after_search (pos client) (pos chain)
        (asking_search (predicate fuel (pos client)) (pos 0) (pos client)
          (estimate s.previous (pos client)) w)
        s

  unfoldable pub run_round : ℕ → State W → Option (State W)
  run_round fuel s =
      let (client, w1) = chains.last_block_number s.world in
      let (chain, w2) = chains.get_block_number w1 in
      elim client [
        | err e ↦ some (record s { world = w1 })
        | ok c ↦ elim chain [
          | err e ↦ some (record s { world = w2 })
          | ok n ↦ round_at fuel w2 c n s
        ]
      ]
