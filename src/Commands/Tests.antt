-- ===== src/Commands/Tests.antt =====
-- The theorems about the commands, at concrete answers.
use rainbow_bridge.Prelude.{
  ℕ, zero, suc, ◌+◌, ◌*◌, ◌≤◌, ◌≡◌, ◌⊎◌, refl, String, true, none, some, List, [], ◌∷◌,
}
use rainbow_bridge.Prelude.Js.{Result, ok, err, error, includes}
use rainbow_bridge.Accounts.{Account}
use rainbow_bridge.Client.Setup.{Setup}
use rainbow_bridge.Commands.Keys.{normalize_eth_key}
use rainbow_bridge.Commands.Status.{Verdict, status, unknown_status, given, unreachable}
use rainbow_bridge.Commands.Status.Near.{
  NearArgs, Near, NearStatus, basic_status, both, near_status, request, verify_keys,
}
use rainbow_bridge.Commands.Status.Eth.{Eth, Progress, basic_eth_status, eth_status}
use rainbow_bridge.Commands.Status.Missing.{near_status-returned, eth_status_lem}
use rainbow_bridge.Commands.Status.Services.{process_args, join}
use rainbow_bridge.Commands.Status.Print.{line_text, line_of, pad, color_of, explanation_text}
use rainbow_bridge.Commands.EthContracts.{
  Arg, Job, Master, returned, init_eth_client, admin_or_master, min_allowed_replace_duration,
  client_args, artifact_job, run_job, execute, deploy_loop, deploy_once,
}
use rainbow_bridge.Commands.EthContracts as Deploys
use rainbow_bridge.Commands.EthContracts.Deployed.{
  IsAdmin, ClientArgs, ClientDeployed, init_eth_client-Deployed,
}
use rainbow_bridge.Commands.NearContracts.{Args}
use rainbow_bridge.Commands.NearContracts as Boots

abbrev account : Account ℕ
account = record {
  fetch_code_hash = λ w. (ok "code", w);
  create = λ w. (ok tt, w);
  deploy = λ w. (ok tt, w);
  error_type = λ e. none;
  key_of_store = λ w. (ok "key", w);
  get_access_keys = λ w. (ok ("key" ∷ []), w);
}

-- The node answers; the arguments have no master key.
abbrev near_args : NearArgs
near_args = record {
  network_id = some "local";
  node_url = some "http://localhost";
  master_account = some "node0";
  master_sk = none;
  client_account = none;
  client_sk = none;
  prover_account = some "";
  prover_sk = none;
}

abbrev near : Near ℕ
near = record {
  fetch_status = λ url w. (ok ("1.18", "1000"), w);
  set_key = λ network id sk w. (ok tt, w);
  connect = λ url w. (ok tt, w);
  account = λ id. account;
  contract = λ master id w. (ok id, w);
  boo = λ id w. (err (error "Contract method is not found"), w);
}

connected : NearStatus
connected = record (basic_status near_args) {
  network_connection = status "http://localhost" Verdict.ok "1.18";
  network_last_block = record { value = "1000"; verdict = Verdict.ok; explanation = none };
}

shows : (near_status near near_args 0).0 ≡ ok connected
unfolding near_status request given connected verify_keys
shows = refl

near_status-returned_example :
    (connected.contracts ≡ none)
    × ((both near_args.master_account near_args.master_sk ≡ none)
        ⊎ (connected.network_connection.verdict ≡ Verdict.error))
near_status-returned_example = near_status-returned near near_args connected 0 shows

-- A node that answers everything.
abbrev eth : Eth ℕ
eth = record {
  to_lower_case = λ text. text;
  connect = λ url w. (ok (some "mainnet"), w);
  protocol_version = λ w. (ok "65", w);
  block_number = λ w. (ok "12", w);
  address_of = λ sk. ok "0xab";
  accounts = λ w. (ok ("0xab" ∷ []), w);
  close = λ w. w;
  contract_address = λ path a w. (ok a, w);
}

abbrev progress : Progress ℕ
progress = record { world = 0; fields = basic_eth_status eth none }

url_given : given (some "ws://localhost") ≡ some "ws://localhost"
unfolding given
url_given = refl

eth_status_lem_example :
    ((eth_status eth (some "ws://localhost") (some "0x1") progress).0 ≡ ok tt)
    × ((eth_status eth (some "ws://localhost") (some "0x1") progress).1.fields.network_location
        ≡ unknown_status)
    × ((eth_status eth (some "ws://localhost") (some "0x1") progress).1.fields.network_connection
        ≡ status "ws://localhost" Verdict.error unreachable)
    × ((eth_status eth (some "ws://localhost") (some "0x1") progress).1.fields.network_last_block
        ≡ unknown_status)
eth_status_lem_example =
    eth_status_lem eth (some "ws://localhost") (some "0x1") "ws://localhost" progress url_given

-- The first deployment fails with a nonce error.
abbrev first_nonce : ℕ → Result String
first_nonce zero = err (error "the tx doesn't have the correct nonce")
first_nonce (suc w) = ok "CD"

abbrev deploys : Deploys.Eth ℕ String
deploys = record {
  to_lower_case = λ text. text;
  connect = λ url sk w. (ok "0xab", w);
  address_of = λ sk. ok "0xab";
  read_artifact = λ path w. (ok ("abi", "0x60"), w);
  read_abi = λ path w. (ok "abi", w);
  read_bin = λ path w. (ok "60", w);
  gas_price = λ w. (ok 7, w);
  deploy = λ abi code args from gas price w. (first_nonce w, w);
  utf8 = λ text. [];
  sleep = λ ms w. suc w;
  close = λ w. w;
}

abbrev master : Master
master = record { node_url = "ws://localhost"; sk = "1"; gas_multiplier = 2 }

deployed_client :
    (init_eth_client deploys master "0xed" 100 30 60 "Client.json" "" 0).0 ≡ ok (returned "0xCD")
unfolding init_eth_client admin_or_master min_allowed_replace_duration run_job execute deploy_loop
    deploy_once given normalize_eth_key includes
deployed_client = refl

init_eth_client-Deployed_example :
    ((30 + 1200 ≤ 60) ⊎ (2 * 30 ≤ 60))
    × ((admin : String) × (args : List Arg) × IsAdmin deploys master "" admin
        × ClientArgs deploys master "0xed" 100 30 60 admin args
        × ClientDeployed deploys master args "Client.json" 0 "0xCD")
init_eth_client-Deployed_example =
    init_eth_client-Deployed deploys master "0xed" 100 30 60 "Client.json" "" 0 "0xCD"
      deployed_client

abbrev roots : ℕ → String
roots zero = "0x55b891e842e58f58956a847cbbf67821"
roots (suc n) = "0x7a9010568819de327a24fa495029adcb"

abbrev setup : Setup ℕ ℕ
setup = record {
  find_access_key = λ w. (ok true, w);
  initialized = λ w. (ok true, w);
  get_block_number = λ w. (ok 5, w);
  post = λ n w. (ok none, w);
  sleep = λ ms w. w;
  block_to_rlp = λ b w. (ok [], w);
  init = λ bs w. (ok tt, w);
  dag_merkle_root = λ epoch w. (ok (roots epoch), w);
}

abbrev boots : Boots.Near ℕ ℕ
boots = record {
  public_key = λ sk. ok "pk";
  set_key = λ id sk w. (ok tt, w);
  connect = λ w. (ok tt, w);
  master = account;
  account = λ id pk. account;
  client = λ id. setup;
  prover_access_key_init = λ id w. (ok tt, w);
  prover_init = λ id client w. (err (error "The contract is already initialized"), w);
  destroy = λ w. w;
}

abbrev boot_args : Args
boot_args = record {
  master_account = "node0";
  master_sk = "sk0";
  client_account = "client";
  client_sk = some "sk1";
  prover_account = "prover";
  prover_sk = none;
}

abbrev keys : String × String
keys = ("sk1", "sk0")

-- The arguments of a service.
service : join (process_args ("run" ∷ "--a" ∷ "1" ∷ "--b" ∷ "2" ∷ "--c" ∷ [])) ≡ "a=1, b=2"
unfolding process_args join
service = refl

-- A line without a status.
line :
    line_text "Contracts" none
    ≡ "Contracts:                                         \u{1b}[35munknown (record not found)\u{1b}[39m"
unfolding line_text line_of pad color_of explanation_text given
line = refl
