-- ===== src/Client/Proofs/Tests.antt =====
-- The theorem about proofs, at a block of two transactions with three logs each.
use rainbow_bridge.Prelude.{ℕ, ◌≡◌, refl, some, List, [], ◌∷◌, ◌++◌, str_eq, if◌then◌else◌}
use rainbow_bridge.Prelude.Js.{ok, err, type_error}
use rainbow_bridge.Robust.Backoff.{backoff}
use rainbow_bridge.Robust.Calls.{
  Node, reconnecting, robust_get_block, robust_get_transaction_receipt,
}
use rainbow_bridge.Client.Proofs.{
  Web3Data, Libraries, ProofLocker, found, extract_receipt, extract_block, receipts_of, put_receipt,
  put_receipts, build_trie, extract_proof, find_log, locker_of, try_find_proof,
  eth_to_near_find_proof,
}
use rainbow_bridge.Client.Proofs.Found.{IsProofOf, find_proof-IsProofOf}

-- A receipt is its number, a log its index.
abbrev web3 : Web3Data ℕ ℕ ℕ
web3 = record {
  number = λ block. block;
  transactions = λ block. "t1" ∷ "t2" ∷ [];
  block_number = λ receipt. 5;
  transaction_index = λ receipt. receipt;
  logs = λ receipt. 7 ∷ 8 ∷ 9 ∷ [];
  log_index = λ log. log;
}

-- The tree is the list of what was put.
abbrev libraries : Libraries ℕ ℕ ℕ ℕ (List ℕ) ℕ
libraries = record {
  parse_json = λ raw. ok (some (record { transaction_hash = some "t2"; log_index = some 8 }));
  web3_get_block = λ number w. (ok (some number), w);
  new_tree = [];
  put_entry = λ path bytes tree w. (ok (tree ++ bytes), w);
  find_path = λ tree path w. (ok tree, w);
  encode = λ n. n ∷ [];
  serialize_receipt = λ receipt. ok (receipt ∷ []);
  serialize_log = λ log. ok (log ∷ []);
  serialize_header = λ block. ok (1 ∷ []);
  nodes_of_stack = λ stack. stack;
  rlp_encode = λ n. n ∷ [];
  no_hash = "undefined";
  close = λ w. (err (type_error "connection is undefined"), w);
}

abbrev answers : Node ℕ ℕ ℕ
answers = record {
  get_block_number = λ w. (ok 5, w);
  get_block = λ number w. (ok (some number), w);
  get_transaction_receipt = λ t w. (ok (some (if str_eq t "t1" then 0 else 1)), w);
  set_provider = λ w. w;
}

abbrev first_factor : ℕ → ℕ → ℕ
first_factor a b = a

abbrev awake : ℕ → ℕ → ℕ
awake ms w = w

abbrev printed : ProofLocker
printed = record {
  log_index = 1;
  log_entry_data = 8 ∷ [];
  receipt_index = 1;
  receipt_data = 1 ∷ [];
  header_data = 1 ∷ [];
  proof = (0 ∷ []) ∷ (1 ∷ []) ∷ [];
}

prints :
    (eth_to_near_find_proof web3 libraries answers first_factor awake 500 1 "{}" 0).0
    ≡ found 5 printed
unfolding eth_to_near_find_proof try_find_proof extract_receipt extract_block build_trie receipts_of
    put_receipts put_receipt extract_proof find_log locker_of robust_get_block
    robust_get_transaction_receipt reconnecting backoff
prints = refl

find_proof-IsProofOf_example :
    IsProofOf web3 libraries answers first_factor awake 500 1 "{}" 5 printed
find_proof-IsProofOf_example =
    find_proof-IsProofOf web3 libraries answers first_factor awake 500 1 "{}" 5 printed 0 prints
