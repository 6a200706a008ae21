-- ===== src/Borsh/Borshify.antt =====
-- `borshify` and `borshifyInitialValidators` of utils/borsh.js and `borshifyOutcomeProof` of
-- utils/borshify-proof.js. `bs58.decode` and BN's `toBuffer('le', n)` are parameters; both may throw.
-- A text that is written byte by byte is the list of its codes (NEAR's account names are ASCII).
pub mod Decoder
pub mod Encodes
pub mod Parts
pub mod RoundTrip
pub mod OutcomeDecoder
pub mod Outcomes
mod Tests
pub mod Versions
use rainbow_bridge.Prelude.{
  ℕ, zero, suc, ◌≡◌, String, Bool, Option, none, some, List, [], ◌∷◌, ◌++◌, map, str_eq,
  if◌then◌else◌, length,
}
use rainbow_bridge.Prelude.Js.{Result, ok, err, error, ◌>>=◌}

-- bs58 and BN.
pub record Coders : Type 0 where
  pub bs58_decode : String → Result (List ℕ)
  pub to_le : ℕ → ℕ → Result (List ℕ)

-- `Buffer.concat`.
unfoldable pub concat : List (Result (List ℕ)) → Result (List ℕ)
concat [] = ok []
concat (e ∷ es) = do xs ← e; ys ← concat es; ok (xs ++ ys)

-- A key or a signature, such as 'ed25519:...': its first eight characters, and the rest.
pub record Key : Type 0 where
  pub prefix : String
  pub body : String

pub record BlockProducer : Type 0 where
  pub struct_version : Option String
  pub account_id : List ℕ
  pub public_key : Key
  pub stake : ℕ

pub record InnerLite : Type 0 where
  pub height : ℕ
  pub epoch_id : String
  pub next_epoch_id : String
  pub prev_state_root : String
  pub outcome_root : String
  pub timestamp_nanosec : Option ℕ
  pub timestamp : ℕ
  pub next_bp_hash : String
  pub block_merkle_root : String

pub record Block : Type 0 where
  pub prev_block_hash : String
  pub next_block_inner_hash : String
  pub inner_lite : InnerLite
  pub inner_rest_hash : String
  pub next_bps : List BlockProducer
  pub approvals_after_next : List (Option Key)

abbrev pub validator_stake_v1 : ℕ
validator_stake_v1 = 0

abbrev pub validator_stake_v2 : ℕ
validator_stake_v2 = 1

-- The own property `validator_stake_struct_version` is there and is 'V2'.
abbrev pub stake_version : Option String → ℕ
stake_version none = validator_stake_v1
stake_version (some v) = if str_eq v "V2" then validator_stake_v2 else validator_stake_v1

-- `timestamp_nanosec || timestamp`, decimal texts, of which none is empty.
abbrev pub timestamp_of : InnerLite → ℕ
timestamp_of lite = elim lite.timestamp_nanosec [ none ↦ lite.timestamp | some t ↦ t ]

abbrev pub key_type : Key → ℕ
key_type key = if str_eq key.prefix "ed25519:" then 0 else 1

-- One node of a Merkle path.
pub record PathItem : Type 0 where
  pub hash : String
  pub direction : String

pub data Status : Type 0 where
  success_value : List ℕ → Status
  success_receipt_id : String → Status
  other : Status

pub record Outcome : Type 0 where
  pub logs : List String
  pub receipt_ids : List String
  pub gas_burnt : ℕ
  pub tokens_burnt : ℕ
  pub executor_id : List ℕ
  pub status : Status

pub record OutcomeProof : Type 0 where
  pub proof : List PathItem
  pub block_hash : String
  pub id : String
  pub outcome : Outcome
  pub prev_block_hash : String
  pub inner_rest_hash : String
  pub inner_lite : InnerLite
  pub block_proof : List PathItem

module _ (coders : Coders) where
  open coders use {bs58_decode, to_le}

  unfoldable pub borshify_producer : BlockProducer → Result (List ℕ)
  borshify_producer bp = concat (
      ok (stake_version bp.struct_version ∷ [])
      ∷ to_le 4 (length bp.account_id)
      ∷ ok bp.account_id
      ∷ ok (key_type bp.public_key ∷ [])
      ∷ bs58_decode bp.public_key.body
      ∷ to_le 16 bp.stake
      ∷ [])

  unfoldable pub borshify_approval : Option Key → Result (List ℕ)
  borshify_approval none = ok (0 ∷ [])
  borshify_approval (some signature) =
      concat (ok (1 ∷ []) ∷ ok (key_type signature ∷ []) ∷ bs58_decode signature.body ∷ [])

  unfoldable pub borshify_inner_lite : InnerLite → Result (List ℕ)
  borshify_inner_lite lite = concat (
      to_le 8 lite.height
      ∷ bs58_decode lite.epoch_id
      ∷ bs58_decode lite.next_epoch_id
      ∷ bs58_decode lite.prev_state_root
      ∷ bs58_decode lite.outcome_root
      ∷ to_le 8 (timestamp_of lite)
      ∷ bs58_decode lite.next_bp_hash
      ∷ bs58_decode lite.block_merkle_root
      ∷ [])

  unfoldable pub borshify : Block → Result (List ℕ)
  borshify block = concat (
      bs58_decode block.prev_block_hash
      ∷ bs58_decode block.next_block_inner_hash
      ∷ borshify_inner_lite block.inner_lite
      ∷ bs58_decode block.inner_rest_hash
      ∷ ok (1 ∷ [])
      ∷ to_le 4 (length block.next_bps)
      ∷ concat (map borshify_producer block.next_bps)
      ∷ to_le 4 (length block.approvals_after_next)
      ∷ concat (map borshify_approval block.approvals_after_next)
      ∷ [])

  unfoldable pub borshify_initial_validators : List BlockProducer → Result (List ℕ)
  borshify_initial_validators bps =
      concat (to_le 4 (length bps) ∷ concat (map borshify_producer bps) ∷ [])

  unfoldable pub status_to_buffer : Status → Result (List ℕ)
  status_to_buffer (success_value bytes) =
      concat (ok (2 ∷ []) ∷ to_le 4 (length bytes) ∷ ok bytes ∷ [])
  status_to_buffer (success_receipt_id id) = concat (ok (3 ∷ []) ∷ bs58_decode id ∷ [])
  status_to_buffer other = err (error "status not supported")

  unfoldable pub borshify_path_item : PathItem → Result (List ℕ)
  borshify_path_item p =
      concat (bs58_decode p.hash ∷ ok ((if str_eq p.direction "Right" then 1 else 0) ∷ []) ∷ [])

  -- The logs' number is written, and no log: a 0 follows the status.
  unfoldable pub borshify_outcome_proof : OutcomeProof → Result (List ℕ)
  borshify_outcome_proof p = concat (
      to_le 4 (length p.proof)
      ∷ concat (map borshify_path_item p.proof)
      ∷ bs58_decode p.block_hash
      ∷ bs58_decode p.id
      ∷ concat (
          to_le 4 (length p.outcome.logs)
          ∷ to_le 4 (length p.outcome.receipt_ids)
          ∷ concat (map bs58_decode p.outcome.receipt_ids)
          ∷ to_le 8 p.outcome.gas_burnt
          ∷ to_le 16 p.outcome.tokens_burnt
          ∷ to_le 4 (length p.outcome.executor_id)
          ∷ ok p.outcome.executor_id
          ∷ status_to_buffer p.outcome.status
          ∷ to_le 4 0
          ∷ bs58_decode p.prev_block_hash
          ∷ bs58_decode p.inner_rest_hash
          ∷ to_le 8 p.inner_lite.height
          ∷ bs58_decode p.inner_lite.epoch_id
          ∷ bs58_decode p.inner_lite.next_epoch_id
          ∷ bs58_decode p.inner_lite.prev_state_root
          ∷ bs58_decode p.inner_lite.outcome_root
          ∷ to_le 8 (timestamp_of p.inner_lite)
          ∷ bs58_decode p.inner_lite.next_bp_hash
          ∷ bs58_decode p.inner_lite.block_merkle_root
          ∷ to_le 4 (length p.block_proof)
          ∷ concat (map borshify_path_item p.block_proof)
          ∷ [])
      ∷ [])
