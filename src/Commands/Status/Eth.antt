-- ===== src/Commands/Status/Eth.antt =====
-- `EthContracts` and `EthStatus`. web3 is a parameter.
use rainbow_bridge.Prelude.{
  String, Bool, true, false, Option, none, some, List, str_eq, if◌then◌else◌,
}
use Prim.Native.String.{◌++◌}
use rainbow_bridge.Prelude.Js.{Result, ok, err, type_error}
use rainbow_bridge.Prelude.Async.{Async, pure, throw, catch, ◌>>=◌, ◌>>◌}
use rainbow_bridge.Accounts.{has_key}
use rainbow_bridge.Commands.Keys.{normalize_eth_key}
use rainbow_bridge.Commands.Status.{
  Verdict, Status, status, plain_status, unknown_status, given, unknown, unreachable, valid,
  invalid, deployed, not_verified, abi_not_found, contract_not_found, internal_error,
}

-- The second argument of `EthContracts.init`: paths and addresses.
pub record ContractPaths : Type 0 where
  pub ed25519 : Option String × Option String
  pub erc20 : Option String × Option String
  pub locker : Option String × Option String
  pub client : Option String × Option String
  pub prover : Option String × Option String

pub record Eth (W : Type 0) : Type 0 where
  pub to_lower_case : String → String
  -- `new Web3` and its `defaultChain`.
  pub connect : String → Async W (Option String)
  pub protocol_version : Async W String
  pub block_number : Async W String
  -- The address of a key.
  pub address_of : String → Result String
  pub accounts : Async W (List String)
  pub close : W → W
  -- `JSON.parse(fs.readFileSync(path))` and `new web3.eth.Contract`: the contract's address.
  pub contract_address : String → String → Async W String

pub record EthContracts : Type 0 where
  pub ed25519 : Status
  pub erc20 : Status
  pub locker : Status
  pub client : Status
  pub prover : Status

pub record EthStatus : Type 0 where
  pub network_location : Status
  pub network_connection : Status
  pub network_last_block : Status
  pub master_account : Status
  pub master_key : Status
  pub contracts : Option EthContracts

-- The world and the fields set so far, which stay set when a call throws.
pub record Progress (W : Type 0) : Type 0 where
  pub world : W
  pub fields : EthStatus

module _ {W : Type 0} (eth : Eth W) where
  abbrev pub call : {A : Type 0} → Async W A → Async (Progress W) A
  call m p = let (r, w) = m p.world in (r, record p { world = w })

  abbrev pub set : (EthStatus → EthStatus) → Async (Progress W) (Unit {0})
  set f p = (ok tt, record p { fields = f p.fields })

  unfoldable pub check_eth_contract : Option String × Option String → Async W Status
  check_eth_contract (abi_path, address) = elim (given abi_path) [
    | none ↦ pure (status unknown Verdict.error abi_not_found)
    | some path ↦ elim (given address) [
      | none ↦ pure (status unknown Verdict.error contract_not_found)
      | some a ↦
          catch
            (do
              found ← eth.contract_address path a
              pure (
                  if str_eq found a
                  then status found Verdict.ok deployed
                  else status a Verdict.error invalid))
            (λ e. pure (status unknown Verdict.error internal_error))
    ]
  ]

  -- Without its second argument the function throws when it takes it apart.
  unfoldable pub init_eth_contracts : Option ContractPaths → Async W EthContracts
  init_eth_contracts none = throw (type_error "Cannot destructure 'undefined' as it is undefined.")
  init_eth_contracts (some paths) = do
    ed25519 ← check_eth_contract paths.ed25519
    erc20 ← check_eth_contract paths.erc20
    locker ← check_eth_contract paths.locker
    client ← check_eth_contract paths.client
    prover ← check_eth_contract paths.prover
    pure (record {
      ed25519 = ed25519;
      erc20 = erc20;
      locker = locker;
      client = client;
      prover = prover;
    })

  unfoldable pub ask_version : String → Async (Progress W) (Unit {0})
  ask_version url =
      catch
        (do
          version ← call eth.protocol_version
          last ← call eth.block_number
          set (λ s. record s {
            network_connection = status url Verdict.ok ("version " ++ version);
            network_last_block = plain_status last Verdict.ok;
          }))
        (λ e. set (λ s. record s {
          network_connection = status url Verdict.error unreachable;
          network_last_block = unknown_status;
        }))

  abbrev address_of_key : Option String → Result String
  address_of_key none = err (type_error "Cannot read property 'toLowerCase' of undefined")
  address_of_key (some sk) = eth.address_of (normalize_eth_key eth.to_lower_case sk)

  abbrev set_master : String → Bool → EthStatus → EthStatus
  set_master address true s = record s {
    master_account = status address Verdict.ok valid;
    master_key = record s.master_key { verdict = Verdict.ok };
  }
  set_master address false s = record s {
    master_account = status address Verdict.error invalid;
    master_key = record s.master_key { verdict = Verdict.error };
  }

  unfoldable pub check_master : Option String → Async (Progress W) (Unit {0})
  check_master sk =
      catch
        (do
          address ← λ p. (address_of_key sk, p)
          known ← call eth.accounts
          set (set_master address (has_key known address)))
        (λ e. pure tt)

  abbrev chain_of : Option String → String
  chain_of chain = elim (given chain) [ none ↦ "local" | some c ↦ c ]

  abbrev pub locate : Option String → EthStatus → EthStatus
  locate chain s = record s { network_location = plain_status (chain_of chain) Verdict.info }

  -- The outer `try`.
  unfoldable pub ask_eth : String → Option String → Async (Progress W) (Unit {0})
  ask_eth url sk = do
    chain ← call (eth.connect url)
    set (locate chain)
    ask_version url
    check_master sk
    contracts ← call (init_eth_contracts none)
    set (λ s. record s { contracts = some contracts })
    λ p. (ok tt, record p { world = eth.close p.world })

  unfoldable pub basic_eth_status : Option String → EthStatus
  basic_eth_status sk = record {
    network_location = unknown_status;
    network_connection = unknown_status;
    network_last_block = unknown_status;
    master_account = status unknown Verdict.info not_verified;
    master_key = elim (given sk) [
      | none ↦ unknown_status
      | some k ↦ plain_status (normalize_eth_key eth.to_lower_case k) Verdict.info
    ];
    contracts = none;
  }

  unfoldable pub eth_status : Option String → Option String → Async (Progress W) (Unit {0})
  eth_status url sk = do
    set (λ s. basic_eth_status sk)
    elim (given url) [
      | none ↦ pure tt
      | some u ↦ catch (ask_eth u sk) (λ e. set (λ s. record s {
        network_location = unknown_status;
        network_connection = status u Verdict.error unreachable;
        network_last_block = unknown_status;
      }))
    ]
