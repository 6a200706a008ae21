-- ===== src/Commands/Status/Near.antt =====
-- `NearContracts` and `NearStatus`. The node and near-api-js are parameters.
use rainbow_bridge.Prelude.{String, Option, none, some, if◌then◌else◌}
use Prim.Native.String.{◌++◌}
use rainbow_bridge.Prelude.Js.{Result, ok, err, type_error, includes}
use rainbow_bridge.Prelude.Async.{Async, pure, throw, catch, ◌>>=◌, ◌>>◌}
use rainbow_bridge.Accounts.{Account, verify_account_gently}
use rainbow_bridge.Commands.Status.{
  Verdict, Status, status, plain_status, unknown_status, given, unknown, unreachable, valid,
  invalid, deployed, not_verified, using_master, contract_not_found, internal_error,
}

pub record NearArgs : Type 0 where
  pub network_id : Option String
  pub node_url : Option String
  pub master_account : Option String
  pub master_sk : Option String
  pub client_account : Option String
  pub client_sk : Option String
  pub prover_account : Option String
  pub prover_sk : Option String

-- The second argument of `NearContracts.init`.
pub record ContractAccounts : Type 0 where
  pub master : Option String
  pub client : Option String
  pub prover : Option String
  pub token_factory : Option String

pub record Near (W : Type 0) : Type 0 where
  -- The version and the latest height in the node's answer.
  pub fetch_status : String → Async W (String × String)
  pub set_key : Option String → String → String → Async W (Unit {0})
  pub connect : String → Async W (Unit {0})
  pub account : String → Account W
  -- `new nearAPI.Contract`, whose value here is its id, for the master's account.
  pub contract : String → String → Async W String
  pub boo : String → Async W (Unit {0})

-- `none` is a field that is not set.
pub record NearContracts : Type 0 where
  pub client : Option Status
  pub prover : Option Status
  pub fun_token : Option Status

pub record NearStatus : Type 0 where
  pub network_location : Status
  pub network_connection : Status
  pub network_last_block : Status
  pub master_account : Status
  pub master_key : Status
  pub client_account : Status
  pub client_key : Status
  pub prover_account : Status
  pub prover_key : Status
  pub near_client_account : Option Status
  pub near_prover_account : Option Status
  pub contracts : Option NearContracts

-- `text ? new Status(text, verdict, explanation) : other`.
abbrev given_or : Option String → (String → Status) → Status → Status
given_or text f other = elim (given text) [ none ↦ other | some t ↦ f t ]

abbrev not_verified_status : String → Status
not_verified_status text = status text Verdict.info not_verified

abbrev info_status : String → Status
info_status text = plain_status text Verdict.info

-- The fields as they are before the node is asked.
unfoldable pub basic_status : NearArgs → NearStatus
basic_status args = record {
  network_location = given_or args.network_id info_status unknown_status;
  network_connection = unknown_status;
  network_last_block = unknown_status;
  master_account = given_or args.master_account not_verified_status unknown_status;
  master_key = given_or args.master_sk info_status unknown_status;
  client_account =
      given_or args.client_account not_verified_status (status unknown Verdict.info using_master);
  client_key = given_or args.client_sk info_status (status unknown Verdict.info using_master);
  prover_account =
      given_or args.prover_account not_verified_status (status unknown Verdict.info using_master);
  prover_key = given_or args.prover_sk info_status (status unknown Verdict.info using_master);
  near_client_account = none;
  near_prover_account = none;
  contracts = none;
}

-- The fields once the node is asked.
abbrev pub asked_status : NearArgs → String → Verdict → String → String → NearStatus
asked_status args url verdict explanation last = record (basic_status args) {
  network_connection = status url verdict explanation;
  network_last_block = plain_status last verdict;
}

-- Both, if both are conditions that hold.
abbrev pub both : Option String → Option String → Option (String × String)
both a b = elim (given a) [
  | none ↦ none
  | some x ↦ elim (given b) [ none ↦ none | some y ↦ some (x, y) ]
]

module _ {W : Type 0} (near : Near W) where
  unfoldable pub request : String → W → (Verdict × String × String) × W
  request url w = elim (near.fetch_status url w).0 [
    | ok (version, height) ↦ ((Verdict.ok, version, height), (near.fetch_status url w).1)
    | err e ↦ ((Verdict.error, unreachable, unknown), (near.fetch_status url w).1)
  ]

  -- Where `boo` succeeds, nothing is returned.
  unfoldable pub try_boo : String → Async W (Option Status)
  try_boo id =
      catch (do near.boo id; pure none)
        (λ e.
          if includes e.message "Contract method is not found"
          then pure (some (status id Verdict.ok deployed))
          else pure (some (status unknown Verdict.info not_verified)))

  unfoldable pub check_contract : String → Option String → Async W (Option Status)
  check_contract master contract_account = elim (given contract_account) [
    | none ↦ pure (some (status unknown Verdict.error contract_not_found))
    | some id ↦
        catch (do contract_id ← near.contract master id; try_boo contract_id)
          (λ e. pure (some (status unknown Verdict.error internal_error)))
  ]

  -- Without its second argument the function throws when it takes it apart.
  unfoldable pub init_contracts : Option ContractAccounts → Async W NearContracts
  init_contracts none = throw (type_error "Cannot destructure 'undefined' as it is undefined.")
  init_contracts (some accounts) = elim (given accounts.master) [
    | none ↦ pure (record { client = none; prover = none; fun_token = none })
    | some master ↦ (do
      client ← check_contract master accounts.client
      prover ← check_contract master accounts.prover
      fun_token ← check_contract master accounts.token_factory
      pure (record { client = client; prover = prover; fun_token = fun_token }))
  ]

  abbrev pub set_key_if : Option String → Option (String × String) → Async W (Unit {0})
  set_key_if network none = pure tt
  set_key_if network (some (account, sk)) = near.set_key network account sk

  unfoldable pub verified_status : String → Async W Status
  verified_status id = do
    verified ← verify_account_gently (near.account id)
    pure (if verified then status id Verdict.ok valid else status id Verdict.error invalid)

  unfoldable pub verify_client : Option (String × String) → NearStatus → Async W NearStatus
  verify_client none s = pure s
  verify_client (some (id, sk)) s = do
    v ← verified_status id
    let client_key : Status = record s.client_key { verdict = s.client_account.verdict } in
        pure (record s { near_client_account = some v; client_key = client_key })

  unfoldable pub verify_prover : Option (String × String) → NearStatus → Async W NearStatus
  verify_prover none s = pure s
  verify_prover (some (id, sk)) s = do
    v ← verified_status id
    let prover_key : Status = record s.prover_key { verdict = s.prover_account.verdict } in
        pure (record s { near_prover_account = some v; prover_key = prover_key })

  unfoldable pub verify_keys :
      NearArgs → String → Option (String × String) → NearStatus → Async W NearStatus
  verify_keys args url none s = pure s
  verify_keys args url (some (master, sk)) s = do
    near.set_key args.network_id master sk
    set_key_if args.network_id (both args.client_account args.client_sk)
    set_key_if args.network_id (both args.prover_account args.prover_sk)
    near.connect url
    v ← verified_status master
    s1 ←
        verify_client (both args.client_account args.client_sk) (record s {
          master_account = v;
          master_key = record s.master_key { verdict = v.verdict };
        })
    s2 ← verify_prover (both args.prover_account args.prover_sk) s1
    contracts ← init_contracts none
    pure (record s2 { contracts = some contracts })

  abbrev pub ask_node : NearArgs → String → (Verdict × String × String) × W → Result NearStatus × W
  ask_node args url ((Verdict.ok, explanation, last), w) =
      verify_keys args url (both args.master_account args.master_sk)
        (asked_status args url Verdict.ok explanation last) w
  ask_node args url ((verdict, explanation, last), w) =
      (ok (asked_status args url verdict explanation last), w)

  unfoldable pub near_status : NearArgs → Async W NearStatus
  near_status args w = elim (given args.node_url) [
    | none ↦ (ok (basic_status args), w)
    | some url ↦ ask_node args url (request (url ++ "/status") w)
  ]
