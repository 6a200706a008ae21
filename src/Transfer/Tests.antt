-- ===== src/Transfer/Tests.antt =====
-- The theorem about the transfer, at a run from the start.
use rainbow_bridge.Prelude.{
  ℕ, zero, suc, true, false, none, some, List, [], ◌∷◌, ◌++◌, str_eq, if◌then◌else◌,
}
use rainbow_bridge.Prelude.Js.{ok, err, error}
use rainbow_bridge.Transfer.{not_started, Transfer}
use rainbow_bridge.Transfer.Stages.{Setting, deposit}

-- A receipt is its number, a log its index, the tree the list of what was put. The world counts the
-- sleeps: the block is safe after the first.
abbrev setting : Setting ℕ ℕ ℕ ℕ ℕ (List ℕ) ℕ ℕ
setting = record {
  services = record {
    read_file = λ w. (ok tt, w);
    write_file = λ log w. (ok tt, w);
    encode_abi = λ method arguments. method;
    locked_event = λ transaction. some (record {
      event = record { transaction_hash = some "t2"; log_index = some 8 };
      account_id = some "bob";
    });
    factory_access_key_init = λ w. (ok tt, w);
    erc20_balance_of = λ account w. (ok 100, w);
    last_block_number = λ w. (ok w, w);
    block_hash_safe = λ number w. elim w [ zero ↦ (ok false, 0) | suc n ↦ (ok true, suc n) ];
    ft_balance_of = λ id w. (ok "0", w);
    deposit = λ locker gas amount w. (ok tt, w);
    sleep_ten_seconds = λ w. suc w;
  };
  eth = record {
    get_gas_price = λ w. (ok 10, w);
    get_transaction_count = λ account w. (ok 3, w);
    call = λ tx w. (ok tt, w);
    send = λ tx w. (ok 1, w);
    set_provider = λ w. w;
  };
  web3 = record {
    number = λ block. block;
    transactions = λ block. "t1" ∷ "t2" ∷ [];
    block_number = λ receipt. 5;
    transaction_index = λ receipt. receipt;
    logs = λ receipt. 7 ∷ 8 ∷ 9 ∷ [];
    log_index = λ log. log;
  };
  libraries = record {
    parse_json = λ raw. ok none;
    web3_get_block = λ number w. (ok (some number), w);
    new_tree = [];
    put_entry = λ path bytes tree w. (ok (tree ++ bytes), w);
    find_path = λ tree path w. (ok tree, w);
    encode = λ n. n ∷ [];
    serialize_receipt = λ receipt. ok (receipt ∷ []);
    serialize_log = λ log. ok (log ∷ []);
    serialize_header = λ block. ok (1 ∷ []);
    nodes_of_stack = λ stack. stack;
    rlp_encode = λ n. n ∷ [];
    no_hash = "undefined";
    close = λ w. (err (error "not a WebSocket"), w);
  };
  eth_node = record {
    get_block_number = λ w. (ok 5, w);
    get_block = λ number w. (ok (some number), w);
    get_transaction_receipt = λ t w. (ok (some (if str_eq t "t1" then 0 else 1)), w);
    set_provider = λ w. w;
  };
  account = record {
    fetch_code_hash = λ w. (ok "hash", w);
    create = λ w. (ok tt, w);
    deploy = λ w. (ok tt, w);
    error_type = λ e. none;
    key_of_store = λ w. (ok "key", w);
    get_access_keys = λ w. (ok ("key" ∷ []), w);
  };
  times = λ a b. a;
  sleep = λ ms w. w;
  delay = 500;
  wait = 1;
  args = record {
    amount = 7;
    near_receiver_account = "bob";
    eth_sender_account = "0x1";
    eth_erc20_address = "0x2";
    eth_locker_address = "0x3";
  };
}

abbrev start : Transfer ℕ ℕ ℕ ℕ ℕ
start = record { world = 0; log = not_started; acts = [] }
