-- ===== src/Commands/Status/Services.antt =====
-- `ServicesStatus` and `StatusCommand`. The process manager is a parameter.
use rainbow_bridge.Prelude.{
  String, Option, none, some, List, [], ◌∷◌, ◌++◌, starts_with, if◌then◌else◌,
}
use Prim.Native.String.{◌++◌ as append, len, slice}
use rainbow_bridge.Prelude.Js.{ok, err}
use rainbow_bridge.Prelude.Async.{Async, pure, catch, ◌>>=◌}
use rainbow_bridge.Commands.Status.{
  Verdict, Status, status, running, unknown, unreachable, internal_error,
}
use rainbow_bridge.Commands.Status.Near.{NearArgs, Near, NearContracts, NearStatus, near_status}
use rainbow_bridge.Commands.Status.Eth.{Eth, EthContracts, EthStatus, basic_eth_status, eth_status}
use rainbow_bridge.Commands.Status.Print.{header_text, line_text}

-- `${arg.substring(2)}=${next}` for every argument that starts with two dashes and is not the last.
unfoldable pub process_args : List String → List String
process_args [] = []
process_args (arg ∷ []) = []
process_args (arg ∷ next ∷ args) =
    let rest = process_args (next ∷ args) in
    if starts_with arg "--" then append (append (slice arg 2 (len arg)) "=") next ∷ rest else rest

-- `texts.join(', ')`.
unfoldable pub join : List String → String
join [] = ""
join (text ∷ []) = text
join (text ∷ next ∷ texts) = append text (append ", " (join (next ∷ texts)))

-- The arguments of each process of this name.
pub record Processes (W : Type 0) : Type 0 where
  pub describe : String → Async W (List (List String))
  pub disconnect : W → W

pub record ServicesStatus : Type 0 where
  pub eth2near_relay : Status
  pub near2eth_relay : Status
  pub watchdog : Status

module _ {W : Type 0} (processes : Processes W) where
  abbrev first_process : List (List String) → Status
  first_process [] = status unknown Verdict.error unreachable
  first_process (args ∷ others) = status running Verdict.ok (join (process_args args))

  unfoldable pub running_status : String → Async W Status
  running_status name =
      catch (do found ← processes.describe name; pure (first_process found))
        (λ e. pure (status unknown Verdict.error internal_error))

  unfoldable pub services_status : Async W ServicesStatus
  services_status = do
    eth2near ← running_status "eth2near-relay"
    near2eth ← running_status "near2eth-relay"
    dog ← running_status "bridge-watchdog"
    pure (record { eth2near_relay = eth2near; near2eth_relay = near2eth; watchdog = dog })

abbrev near_contract_lines : Option NearContracts → List String
near_contract_lines none = line_text "Contracts" none ∷ []
near_contract_lines (some c) =
    line_text "fungible token" c.fun_token
    ∷ line_text "client" c.client
    ∷ line_text "prover" c.prover
    ∷ []

abbrev eth_contract_lines : Option EthContracts → List String
eth_contract_lines none = line_text "Contracts" none ∷ []
eth_contract_lines (some c) =
    line_text "ed25519" (some c.ed25519)
    ∷ line_text "erc20" (some c.erc20)
    ∷ line_text "locker" (some c.locker)
    ∷ line_text "client" (some c.client)
    ∷ line_text "prover" (some c.prover)
    ∷ []

abbrev near_lines : NearStatus → List String
near_lines s =
    header_text "NEAR node status"
    ∷ line_text "Location" (some s.network_location)
    ∷ line_text "Connection" (some s.network_connection)
    ∷ line_text "Latest block height" (some s.network_last_block)
    ∷ line_text "Bridge master account" (some s.master_account)
    ∷ line_text "Master account secret key" (some s.master_key)
    ∷ line_text "Account used for Client contract deployment" (some s.client_account)
    ∷ line_text "Client account secret key" (some s.client_key)
    ∷ line_text "Account used for Prover contract deployment" (some s.prover_account)
    ∷ line_text "Prover account secret key" (some s.prover_key)
    ∷ ""
    ∷ header_text "NEAR contracts status"
    ∷ near_contract_lines s.contracts

abbrev eth_lines : EthStatus → List String
eth_lines s =
    ""
    ∷ header_text "ETH node status"
    ∷ line_text "Location" (some s.network_location)
    ∷ line_text "Connection" (some s.network_connection)
    ∷ line_text "Latest block height" (some s.network_last_block)
    ∷ line_text "Bridge master account" (some s.master_account)
    ∷ line_text "Master account secret key" (some s.master_key)
    ∷ ""
    ∷ header_text "ETH contracts status"
    ∷ eth_contract_lines s.contracts

abbrev service_lines : ServicesStatus → List String
service_lines s =
    ""
    ∷ header_text "Services"
    ∷ line_text "ETH-2-NEAR relay" (some s.eth2near_relay)
    ∷ line_text "NEAR-2-ETH relay" (some s.near2eth_relay)
    ∷ line_text "Bridge Watchdog" (some s.watchdog)
    ∷ []

module _ {W : Type 0} (near : Near W) (eth : Eth W) (processes : Processes W) where
  -- `EthStatus.init` of a fresh object; it sets every field.
  abbrev pub fresh_eth_status : Option String → Option String → Async W EthStatus
  fresh_eth_status url sk w =
      let (r, p) =
        eth_status eth url sk (record { world = w; fields = basic_eth_status eth none }) in
      elim r [ ok u ↦ (ok p.fields, p.world) | err e ↦ (err e, p.world) ]

  -- The lines that are printed.
  unfoldable pub execute : NearArgs → Option String → Option String → Async W (List String)
  execute args eth_node_url eth_master_sk = do
    near_part ← near_status near args
    eth_part ← fresh_eth_status eth_node_url eth_master_sk
    services ← services_status processes
    λ w. (
      ok (near_lines near_part ++ eth_lines eth_part ++ service_lines services),
      processes.disconnect w,
    )
