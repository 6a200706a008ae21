-- ===== src/Client/Proofs.antt =====
-- eth2near/eth2near-block-relay/eth-proof-extractor.js: the proof that a log stands in a receipt of a block.
-- web3, the Merkle tree and the encodings of eth-object are parameters. `Promise.all` is taken one after
-- the other.
pub mod Found
mod Tests
use rainbow_bridge.Prelude.{
  ℕ, zero, suc, ◌+◌, ◌≡◌, String, Bool, true, false, Option, none, some, List, [], ◌∷◌, map, ◌==◌,
  if◌then◌else◌,
}
use rainbow_bridge.Prelude.Js.{JsError, Result, ok, err, type_error, to_string}
use rainbow_bridge.Prelude.Async.{Async, pure, throw, catch, lift, ◌>>=◌, ◌>>◌}
use rainbow_bridge.Robust.Calls.{Node, robust_get_block, robust_get_transaction_receipt}

-- The event as parsed; `none` is a field that is missing.
pub record LockedEvent : Type 0 where
  pub transaction_hash : Option String
  pub log_index : Option ℕ

-- web3's blocks, receipts and logs, and what is read of them.
pub record Web3Data (Block Receipt Log : Type 0) : Type 0 where
  pub number : Block → ℕ
  pub transactions : Block → List String
  pub block_number : Receipt → ℕ
  pub transaction_index : Receipt → ℕ
  pub logs : Receipt → List Log
  pub log_index : Log → ℕ

pub record Libraries (W Block Receipt Log Tree PathNode : Type 0) : Type 0 where
  -- `none` is `null` or another value that is no event.
  pub parse_json : String → Result (Option LockedEvent)
  pub web3_get_block : ℕ → Async W (Option Block)
  pub new_tree : Tree
  pub put_entry : List ℕ → List ℕ → Tree → Async W Tree
  pub find_path : Tree → List ℕ → Async W (List PathNode)
  pub encode : ℕ → List ℕ
  pub serialize_receipt : Receipt → Result (List ℕ)
  pub serialize_log : Log → Result (List ℕ)
  pub serialize_header : Option Block → Result (List ℕ)
  pub nodes_of_stack : List PathNode → List PathNode
  pub rlp_encode : PathNode → List ℕ
  pub no_hash : String
  pub close : Async W (Unit {0})

pub record ExtractedProof (PathNode : Type 0) : Type 0 where
  pub header_rlp : List ℕ
  pub receipt_proof : List PathNode
  pub tx_index : ℕ

pub record ProofLocker : Type 0 where
  pub log_index : ℕ
  pub log_entry_data : List ℕ
  pub receipt_index : ℕ
  pub receipt_data : List ℕ
  pub header_data : List ℕ
  pub proof : List (List ℕ)

-- What is printed.
pub data Printed : Type 0 where
  found : ℕ → ProofLocker → Printed
  not_found : String → Printed
  failed : String → Printed

abbrev pub no_event : LockedEvent
no_event = record { transaction_hash = none; log_index = none }

-- `JSON.parse(lockedEventRaw) || {}`.
abbrev pub event_or_empty : Option LockedEvent → LockedEvent
event_or_empty none = no_event
event_or_empty (some event) = event

module _ {W Block Receipt Log Tree PathNode D : Type 0} (web3 : Web3Data Block Receipt Log)
    (libraries : Libraries W Block Receipt Log Tree PathNode) (node : Node W Block Receipt)
    (times : D → D → D) (sleep : D → W → W) (delay wait : D) where
  -- A hash that is missing is handed on as `undefined`.
  abbrev hash_or_undefined : Option String → String
  hash_or_undefined none = libraries.no_hash
  hash_or_undefined (some hash) = hash

  -- A receipt that is `null` throws when it is read.
  abbrev pub or_type_error : Option Receipt → Result Receipt
  or_type_error none = err (type_error "Cannot read property of null")
  or_type_error (some receipt) = ok receipt

  unfoldable pub extract_receipt : Option String → Async W Receipt
  extract_receipt hash = do
    answer ← robust_get_transaction_receipt node times sleep delay wait (hash_or_undefined hash)
    lift (or_type_error answer)

  unfoldable pub extract_block : ℕ → Async W Block
  extract_block number = robust_get_block node times sleep delay wait number

  -- The receipts of the block's transactions.
  unfoldable pub receipts_of : List String → Async W (List (Option Receipt))
  receipts_of [] = pure []
  receipts_of (t ∷ ts) = do
    receipt ← robust_get_transaction_receipt node times sleep delay wait t
    receipts ← receipts_of ts
    pure (receipt ∷ receipts)

  unfoldable pub put_receipt : Option Receipt → Tree → Async W Tree
  put_receipt answer tree = do
    receipt ← lift (or_type_error answer)
    serialized ← lift (libraries.serialize_receipt receipt)
    libraries.put_entry (libraries.encode (web3.transaction_index receipt)) serialized tree

  unfoldable pub put_receipts : List (Option Receipt) → Tree → Async W Tree
  put_receipts [] tree = pure tree
  put_receipts (answer ∷ answers) tree = do
    tree' ← put_receipt answer tree
    put_receipts answers tree'

  unfoldable pub build_trie : Block → Async W Tree
  build_trie block = do
    receipts ← receipts_of (web3.transactions block)
    put_receipts receipts libraries.new_tree

  unfoldable pub extract_proof : Block → Tree → ℕ → Async W (ExtractedProof PathNode)
  extract_proof block tree transaction_index = do
    stack ← libraries.find_path tree (libraries.encode transaction_index)
    block_data ← libraries.web3_get_block (web3.number block)
    header ← lift (libraries.serialize_header block_data)
    pure (record {
      header_rlp = header;
      receipt_proof = libraries.nodes_of_stack stack;
      tx_index = transaction_index;
    })

  abbrev same_index : ℕ → Option ℕ → Bool
  same_index i none = false
  same_index i (some j) = i == j

  -- The loop over the receipt's logs, from `txLogIndex + 1` on.
  unfoldable pub find_log : List Log → Option ℕ → ℕ → Option (ℕ × Log)
  find_log [] wanted i = none
  find_log (log ∷ logs) wanted i =
      let later = find_log logs wanted (i + 1) in
      if same_index (web3.log_index log) wanted then some (i, log) else later

  unfoldable pub locker_of : Receipt → ExtractedProof PathNode → ℕ → Log → Async W ProofLocker
  locker_of receipt extracted tx_log_index log = do
    log_entry_data ← lift (libraries.serialize_log log)
    receipt_data ← lift (libraries.serialize_receipt receipt)
    pure (record {
      log_index = tx_log_index;
      log_entry_data = log_entry_data;
      receipt_index = extracted.tx_index;
      receipt_data = receipt_data;
      header_data = extracted.header_rlp;
      proof = map libraries.rlp_encode extracted.receipt_proof;
    })

  abbrev pub print_log :
      String → Block → Receipt → ExtractedProof PathNode → Option (ℕ × Log) → Async W Printed
  print_log raw block receipt extracted none = pure (not_found raw)
  print_log raw block receipt extracted (some (i, log)) = do
    locker ← locker_of receipt extracted i log
    pure (found (web3.number block) locker)

  unfoldable pub try_find_proof : String → Async W Printed
  try_find_proof raw = do
    parsed ← lift (libraries.parse_json raw)
    receipt ← extract_receipt (event_or_empty parsed).transaction_hash
    block ← extract_block (web3.block_number receipt)
    tree ← build_trie block
    extracted ← extract_proof block tree (web3.transaction_index receipt)
    print_log raw block receipt extracted
        (find_log (web3.logs receipt) (event_or_empty parsed).log_index 0)

  -- The `catch` prints the error.
  abbrev caught : Result Printed → Printed
  caught (ok printed) = printed
  caught (err e) = failed (to_string e)

  -- What is printed, and the outcome of the closing of the connection at the end, outside the `try`.
  unfoldable pub eth_to_near_find_proof : String → W → Printed × Result (Unit {0}) × W
  eth_to_near_find_proof raw w =
      let (answer, w') = try_find_proof raw w in
      let (closed, w'') = libraries.close w' in (caught answer, closed, w'')
