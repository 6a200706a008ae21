-- ===== src/Commands/EthContracts.antt =====
-- cli/init/eth-contracts.js: the deployment of the contracts on Ethereum. web3 and the files are
-- parameters. `null` and `undefined` are both `none`, since the callers only test them; durations are the
-- numbers that `Number` reads.
pub mod Deployed
use rainbow_bridge.Prelude.{
  ℕ, zero, suc, ◌+◌, ◌*◌, String, Bool, true, false, ◌||◌, Option, none, some, List, [], ◌∷◌, ltb,
  str_eq, if◌then◌else◌,
}
use Prim.Native.String.{◌++◌}
use rainbow_bridge.Prelude.Js.{Result, ok, err, error, includes}
use rainbow_bridge.Prelude.Async.{Async, pure, throw, lift, ◌>>=◌}
use rainbow_bridge.Commands.Keys.{normalize_eth_key}
use rainbow_bridge.Commands.Status.{given}

abbrev pub retry_send_tx : ℕ
retry_send_tx = 15

-- An argument of a constructor.
pub data Arg : Type 0 where
  bytes : List ℕ → Arg
  address : String → Arg
  number : ℕ → Arg

pub record Eth (W Abi : Type 0) : Type 0 where
  pub to_lower_case : String → String
  -- `new Web3(url)` with the account of a key: its address.
  pub connect : String → String → Async W String
  -- The address of a key, with no node.
  pub address_of : String → Result String
  pub read_artifact : String → Async W (Abi × String)
  pub read_abi : String → Async W Abi
  pub read_bin : String → Async W String
  pub gas_price : Async W ℕ
  -- The code, the arguments, the sender, the gas and its price, to the contract's address.
  pub deploy : Abi → String → List Arg → String → ℕ → ℕ → Async W String
  pub utf8 : String → List ℕ
  pub sleep : ℕ → W → W
  pub close : W → W

pub record Job : Type 0 where
  pub args : List Arg
  pub gas : ℕ
  pub abi_path : Option String
  pub bin_path : Option String
  pub artifact_path : Option String

-- The arguments that all commands have.
pub record Master : Type 0 where
  pub node_url : String
  pub sk : String
  pub gas_multiplier : ℕ

-- A command returns, or leaves the process.
pub data Outcome (A : Type 0) : Type 0 where
  returned : A → Outcome A
  exited : Outcome A

module _ {W Abi : Type 0} (eth : Eth W Abi) (master : Master) where
  abbrev pub code_of : Job → Async W (Abi × String)
  code_of job = elim (given job.artifact_path) [
    | some path ↦ eth.read_artifact path
    | none ↦ elim job.abi_path [
      | none ↦ throw (error "path must be a string")
      | some abi_path ↦ elim job.bin_path [
        | none ↦ throw (error "path must be a string")
        | some bin_path ↦ (do
          abi ← eth.read_abi abi_path
          bin ← eth.read_bin bin_path
          pure (abi, "0x" ++ bin))
      ]
    ]
  ]

  unfoldable pub deploy_once : Job → Async W String
  deploy_once job = do
    account ← eth.connect master.node_url (normalize_eth_key eth.to_lower_case master.sk)
    (abi, bytecode) ← code_of job
    price ← eth.gas_price
    eth.deploy abi bytecode job.args account job.gas (price * master.gas_multiplier)

  -- The loop with `attempts` left. Only these two errors are tried again.
  unfoldable pub deploy_loop : Job → ℕ → W → Option String × W
  deploy_loop job zero w = (none, w)
  deploy_loop job (suc attempts) w = elim (deploy_once job w).0 [
    | ok a ↦ (some (normalize_eth_key eth.to_lower_case a), eth.close (deploy_once job w).1)
    | err e ↦
        elim (includes e.message "the tx doesn't have the correct nonce"
          || includes e.message "replacement transaction underpriced") [
            | true ↦ deploy_loop job attempts (eth.sleep 5000 (deploy_once job w).1)
            | false ↦ (none, (deploy_once job w).1)
          ]
  ]

  -- `EthContractInitializer.execute`.
  unfoldable pub execute : Job → W → Option String × W
  execute job w = elim (given job.artifact_path) [
    | some path ↦ deploy_loop job retry_send_tx w
    | none ↦ elim (given job.abi_path) [
      | none ↦ (none, w)
      | some abi_path ↦ elim (given job.bin_path) [
        | none ↦ (none, w)
        | some bin_path ↦ deploy_loop job retry_send_tx w
      ]
    ]
  ]

  abbrev pub outcome_of : Option String → Outcome String
  outcome_of none = exited
  outcome_of (some a) = returned a

  -- `if (!success) process.exit(1)`, else the address.
  unfoldable pub run_job : Job → Async W (Outcome String)
  run_job job w = let (success, w') = execute job w in (ok (outcome_of success), w')

  abbrev pub artifact_job : List Arg → ℕ → String → Job
  artifact_job args gas path = record {
    args = args;
    gas = gas;
    abi_path = none;
    bin_path = none;
    artifact_path = some path;
  }

  abbrev compiled_job : List Arg → ℕ → String → String → Job
  compiled_job args gas abi_path bin_path = record {
    args = args;
    gas = gas;
    abi_path = some abi_path;
    bin_path = some bin_path;
    artifact_path = none;
  }

  -- An empty address is that of the master's key.
  unfoldable pub admin_or_master : String → Result String
  admin_or_master admin = if str_eq admin "" then eth.address_of master.sk else ok admin

  unfoldable pub init_eth_ed25519 : String → Async W (Outcome String)
  init_eth_ed25519 path = run_job (artifact_job [] 5000000 path)

  unfoldable pub init_eth_erc20 : String → String → Async W (Outcome String)
  init_eth_erc20 abi_path bin_path = run_job (compiled_job [] 3000000 abi_path bin_path)

  unfoldable pub init_eth_locker :
      String → String → String → String → String → Async W (Outcome String × String)
  init_eth_locker token_factory prover abi_path bin_path admin_address = do
    admin ← lift (admin_or_master admin_address)
    outcome ← run_job (
        compiled_job
          (bytes (eth.utf8 token_factory)
            ∷ address prover
            ∷ number 0
            ∷ address admin
            ∷ number 0
            ∷ [])
          5000000 abi_path bin_path)
    pure (outcome, admin)

  -- The least duration after which a block may be replaced.
  unfoldable pub min_allowed_replace_duration : ℕ → ℕ
  min_allowed_replace_duration lock =
      if ltb (lock + 20 * 60) (2 * lock) then lock + 20 * 60 else 2 * lock

  abbrev pub client_args : String → ℕ → ℕ → ℕ → String → List Arg
  client_args ed25519 lock_eth_amount lock replace admin =
      address ed25519
      ∷ number lock_eth_amount
      ∷ number lock
      ∷ number (replace * 1000000000)
      ∷ address admin
      ∷ number 0
      ∷ []

  unfoldable pub init_eth_client : String → ℕ → ℕ → ℕ → String → String → Async W (Outcome String)
  init_eth_client ed25519 lock_eth_amount lock replace path admin_address = do
    admin ← lift (admin_or_master admin_address)
    if ltb replace (min_allowed_replace_duration lock)
        then throw (error "Invalid parameters")
        else run_job
            (artifact_job (client_args ed25519 lock_eth_amount lock replace admin) 5000000 path)

  unfoldable pub init_eth_prover : String → String → String → Async W (Outcome String)
  init_eth_prover client path admin_address = do
    admin ← lift (admin_or_master admin_address)
    run_job (artifact_job (address client ∷ address admin ∷ number 0 ∷ []) 3000000 path)
