-- ===== src/Borsh/Borshify/OutcomeDecoder.antt =====
-- The other side of `borshifyOutcomeProof`, after contracts/eth/nearprover/contracts/ProofDecoder.sol.
-- The hashes that the contract computes are left out.
use rainbow_bridge.Prelude.{ℕ, Bool, true, false, none, List, [], ltb, ◌==◌, if◌then◌else◌}
use rainbow_bridge.Borsh.Borshify.Decoder.{
  Decoder, ◌>>=◌, ◌>>◌, pure, require, read, decode_uint, decode_bytes32, repeat, SolInnerLite,
  decode_inner_lite,
}

pub record SolPathItem : Type 0 where
  pub hash : List ℕ
  pub direction : ℕ

pub record SolStatus : Type 0 where
  pub enum_index : ℕ
  pub unknown : Bool
  pub failed : Bool
  pub success_value : List ℕ
  pub success_receipt_id : List ℕ

pub record SolOutcome : Type 0 where
  pub logs : List (List ℕ)
  pub receipt_ids : List (List ℕ)
  pub gas_burnt : ℕ
  pub tokens_burnt : ℕ
  pub executor_id : List ℕ
  pub status : SolStatus

pub record SolOutcomeProof : Type 0 where
  pub proof : List SolPathItem
  pub block_hash : List ℕ
  pub id : List ℕ
  pub outcome : SolOutcome
  pub outcome_root_proof : List SolPathItem
  pub prev_block_hash : List ℕ
  pub inner_rest_hash : List ℕ
  pub inner_lite : SolInnerLite
  pub block_proof : List SolPathItem

unfoldable pub decode_bytes : Decoder (List ℕ)
decode_bytes = do n ← decode_uint 4; read n

unfoldable pub decode_path_item : Decoder SolPathItem
decode_path_item = do
  hash ← decode_bytes32
  direction ← decode_uint 1
  require (ltb direction 2)
  pure (record { hash = hash; direction = direction })

unfoldable pub decode_path : Decoder (List SolPathItem)
decode_path = do n ← decode_uint 4; repeat n decode_path_item

-- A status with nothing set but its index.
abbrev pub empty_status : ℕ → SolStatus
empty_status i = record {
  enum_index = i;
  unknown = false;
  failed = false;
  success_value = [];
  success_receipt_id = [];
}

unfoldable pub decode_status_at : ℕ → Decoder SolStatus
decode_status_at i =
    if i == 0
    then pure (record (empty_status i) { unknown = true })
    else if i == 1
    then pure (record (empty_status i) { failed = true })
    else if i == 2
    then (do value ← decode_bytes; pure (record (empty_status i) { success_value = value }))
    else if i == 3
    then (do id ← decode_bytes32; pure (record (empty_status i) { success_receipt_id = id }))
    else (λ bs. none)

unfoldable pub decode_status : Decoder SolStatus
decode_status = do i ← decode_uint 1; decode_status_at i

unfoldable pub decode_outcome : Decoder SolOutcome
decode_outcome = do
  n ← decode_uint 4
  logs ← repeat n decode_bytes
  m ← decode_uint 4
  receipt_ids ← repeat m decode_bytes32
  gas_burnt ← decode_uint 8
  tokens_burnt ← decode_uint 16
  executor_id ← decode_bytes
  status ← decode_status
  pure (record {
    logs = logs;
    receipt_ids = receipt_ids;
    gas_burnt = gas_burnt;
    tokens_burnt = tokens_burnt;
    executor_id = executor_id;
    status = status;
  })

-- After the two hashes: the outcome, the proof of its root, and the block's header and proof.
unfoldable pub decode_outcome_proof : Decoder SolOutcomeProof
decode_outcome_proof = do
  proof ← decode_path
  block_hash ← decode_bytes32
  id ← decode_bytes32
  outcome ← decode_outcome
  outcome_root_proof ← decode_path
  prev_block_hash ← decode_bytes32
  inner_rest_hash ← decode_bytes32
  inner_lite ← decode_inner_lite
  block_proof ← decode_path
  pure (record {
    proof = proof;
    block_hash = block_hash;
    id = id;
    outcome = outcome;
    outcome_root_proof = outcome_root_proof;
    prev_block_hash = prev_block_hash;
    inner_rest_hash = inner_rest_hash;
    inner_lite = inner_lite;
    block_proof = block_proof;
  })
