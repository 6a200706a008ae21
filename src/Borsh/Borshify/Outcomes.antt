-- ===== src/Borsh/Borshify/Outcomes.antt =====
-- The contract's decoder reads back what `borshifyOutcomeProof` writes.
use rainbow_bridge.Prelude.{
  ℕ, ◌^◌, ◌<◌, ◌≡◌, refl, Bool, true, false, some, List, [], ◌∷◌, map, arith, ltb, str_eq,
  if◌then◌else◌, length, All, append-nil,
}
use rainbow_bridge.Prelude.Js.{Result, ok}
use rainbow_bridge.Borsh.Borshify.{
  Coders, concat, InnerLite, PathItem, Status, success_value, success_receipt_id, other, Outcome,
  OutcomeProof, timestamp_of, borshify_inner_lite, status_to_buffer, borshify_path_item,
  borshify_outcome_proof,
}
use rainbow_bridge.Borsh.Borshify.Decoder.{Decoder, read, decode_bytes32, repeat, decode_inner_lite}
use rainbow_bridge.Borsh.Borshify.OutcomeDecoder.{
  SolPathItem, SolStatus, SolOutcome, SolOutcomeProof, empty_status, decode_bytes, decode_path_item,
  decode_path, decode_status_at, decode_status, decode_outcome, decode_outcome_proof,
}
use rainbow_bridge.Borsh.Borshify.Encodes.{
  Encodes, Encodes-append, Encodes-cons, Encodes-nil, Encodes-require, Encodes-read, Encodes-map,
  Encodes-repeat,
}
use rainbow_bridge.Borsh.Borshify.Parts.{
  IsLittleEndian, bytes_of, IsHash, IsInnerLite, view_inner_lite, hash_lem, uint_lem, byte_lem,
  inner_lite_lem,
}

Encodes-single :
    {A : Type 0} (e : Result (List ℕ)) (d : Decoder A) (a : A)
    → Encodes e d a
    → Encodes (concat (e ∷ [])) d a
unfolding concat
Encodes-single e d a h = record {
  written = h.written;
  result = rw (h.result, append-nil);
  decodes = h.decodes;
}

-- 1 for the right, 0 for anything else.
abbrev pub direction_of : PathItem → ℕ
direction_of item = if str_eq item.direction "Right" then 1 else 0

module _ (coders : Coders) where
  abbrev pub view_item : PathItem → SolPathItem
  view_item item = record { hash = bytes_of coders item.hash; direction = direction_of item }

  abbrev pub IsPath : List PathItem → Type 0
  IsPath items = All (λ item. IsHash coders item.hash) items × (length items < 2 ^ 32)

  -- The kinds of status that `statusToBuffer` writes.
  abbrev pub IsStatus : Status → Type 0
  IsStatus (success_value value) = length value < 2 ^ 32
  IsStatus (success_receipt_id id) = IsHash coders id
  IsStatus other = ⊥

  abbrev pub view_status : Status → SolStatus
  view_status (success_value value) = record (empty_status 2) { success_value = value }
  view_status (success_receipt_id id) = record (empty_status 3) {
    success_receipt_id = bytes_of coders id;
  }
  view_status other = empty_status 1

  pub record IsOutcome (o : Outcome) : Type 0 where
    pub no_logs : o.logs ≡ []
    pub receipt_ids : All (IsHash coders) o.receipt_ids
    pub receipt_ids_fit : length o.receipt_ids < 2 ^ 32
    pub gas_burnt : o.gas_burnt < 2 ^ 64
    pub tokens_burnt : o.tokens_burnt < 2 ^ 128
    pub executor_id : length o.executor_id < 2 ^ 32
    pub status : IsStatus o.status

  abbrev pub view_outcome : Outcome → SolOutcome
  view_outcome o = record {
    logs = [];
    receipt_ids = map (bytes_of coders) o.receipt_ids;
    gas_burnt = o.gas_burnt;
    tokens_burnt = o.tokens_burnt;
    executor_id = o.executor_id;
    status = view_status o.status;
  }

  -- Hashes of 32 bytes, numbers in range, a status that can be written, and no logs.
  pub record IsOutcomeProof (p : OutcomeProof) : Type 0 where
    pub proof : IsPath p.proof
    pub block_hash : IsHash coders p.block_hash
    pub id : IsHash coders p.id
    pub outcome : IsOutcome p.outcome
    pub prev_block_hash : IsHash coders p.prev_block_hash
    pub inner_rest_hash : IsHash coders p.inner_rest_hash
    pub inner_lite : IsInnerLite coders p.inner_lite
    pub block_proof : IsPath p.block_proof

  abbrev pub view_outcome_proof : OutcomeProof → SolOutcomeProof
  view_outcome_proof p = record {
    proof = map view_item p.proof;
    block_hash = bytes_of coders p.block_hash;
    id = bytes_of coders p.id;
    outcome = view_outcome p.outcome;
    outcome_root_proof = [];
    prev_block_hash = bytes_of coders p.prev_block_hash;
    inner_rest_hash = bytes_of coders p.inner_rest_hash;
    inner_lite = view_inner_lite coders p.inner_lite;
    block_proof = map view_item p.block_proof;
  }

  module _ (le : IsLittleEndian coders) where
    bytes_lem :
        (bs : List ℕ)
        → length bs < 2 ^ 32
        → Encodes (concat (coders.to_le 4 (length bs) ∷ ok bs ∷ [])) decode_bytes bs
    unfolding decode_bytes
    bytes_lem bs small =
        Encodes-cons _ _ _ _ (length bs) _ (uint_lem coders le 4 _ (omega (arith, small)))
          (Encodes-single (ok bs) (read (length bs)) bs (Encodes-read _ _ _ refl refl))

    item_lem :
        (item : PathItem)
        → IsHash coders item.hash
        → Encodes (borshify_path_item coders item) decode_path_item (view_item item)
    unfolding borshify_path_item decode_path_item
    item_lem item h = Encodes-cons _ _ _ _ (bytes_of coders item.hash) _ (hash_lem coders le _ h) (
        Encodes-cons _ _ _ _ (direction_of item) _ (byte_lem coders le _) (
          Encodes-require _ (ltb (direction_of item) 2) _ _ (small (str_eq item.direction "Right"))
            (Encodes-nil _)))
      where
        small : (b : Bool) → ltb (if b then 1 else 0) 2 ≡ true
        small true = refl
        small false = refl

    path_lem :
        (items : List PathItem)
        → IsPath items
        → Encodes
            (concat
              (coders.to_le 4 (length items) ∷ concat (map (borshify_path_item coders) items) ∷ []))
            decode_path
            (map view_item items)
    unfolding decode_path
    path_lem items (h, small) =
        Encodes-cons _ _ _ _ (length items) _ (uint_lem coders le 4 _ (omega (arith, small))) (
          Encodes-single _ _ _ (
            Encodes-repeat (borshify_path_item coders) decode_path_item view_item
              (λ item. IsHash coders item.hash) item_lem items h))

    status_lem :
        (s : Status)
        → IsStatus s
        → Encodes (status_to_buffer coders s) decode_status (view_status s)
    unfolding status_to_buffer decode_status decode_status_at
    status_lem (success_value value) small = Encodes-cons _ _ _ _ 2 _ (byte_lem coders le 2) (
        Encodes-map (concat (coders.to_le 4 (length value) ∷ ok value ∷ [])) decode_bytes
          (λ v. record (empty_status 2) { success_value = v }) value (bytes_lem value small))
    status_lem (success_receipt_id id) h =
        Encodes-cons _ _ _ _ 3 _ (byte_lem coders le 3)
          (Encodes-cons _ _ _ _ (bytes_of coders id) _ (hash_lem coders le id h) (Encodes-nil _))
    status_lem other h = absurd h

    -- The outcome as it is written, but for its logs.
    abbrev outcome_parts : Outcome → List (Result (List ℕ))
    outcome_parts o =
        coders.to_le 4 (length o.receipt_ids)
        ∷ concat (map coders.bs58_decode o.receipt_ids)
        ∷ coders.to_le 8 o.gas_burnt
        ∷ coders.to_le 16 o.tokens_burnt
        ∷ coders.to_le 4 (length o.executor_id)
        ∷ ok o.executor_id
        ∷ status_to_buffer coders o.status
        ∷ []

    outcome_lem :
        (o : Outcome)
        → IsOutcome o
        → Encodes
            (concat (coders.to_le 4 (length o.logs) ∷ outcome_parts o))
            decode_outcome
            (view_outcome o)
    unfolding decode_outcome repeat
    outcome_lem o h = rw h.no_logs (
        Encodes-cons _ _ _ _ 0 _ (uint_lem coders le 4 0 (omega arith)) (
          Encodes-cons _ _ _ _ (length o.receipt_ids) _
            (uint_lem coders le 4 _ (omega (arith, h.receipt_ids_fit)))
            (Encodes-cons _ _ _ _ (map (bytes_of coders) o.receipt_ids) _
              (Encodes-repeat coders.bs58_decode decode_bytes32 (bytes_of coders) (IsHash coders)
                (hash_lem coders le) o.receipt_ids h.receipt_ids)
              (Encodes-cons _ _ _ _ o.gas_burnt _
                (uint_lem coders le 8 _ (omega (arith, h.gas_burnt)))
                (Encodes-cons _ _ _ _ o.tokens_burnt _
                  (uint_lem coders le 16 _ (omega (arith, h.tokens_burnt)))
                  (Encodes-append (coders.to_le 4 (length o.executor_id) ∷ ok o.executor_id ∷ [])
                    (status_to_buffer coders o.status ∷ []) _ _ o.executor_id _
                    (bytes_lem o.executor_id h.executor_id)
                    (Encodes-cons _ _ _ _ (view_status o.status) _ (status_lem o.status h.status)
                      (Encodes-nil _))))))))

    -- The header's fields, and the proof of the block.
    lite_parts : InnerLite → List (Result (List ℕ))
    lite_parts lite =
        coders.to_le 8 lite.height
        ∷ coders.bs58_decode lite.epoch_id
        ∷ coders.bs58_decode lite.next_epoch_id
        ∷ coders.bs58_decode lite.prev_state_root
        ∷ coders.bs58_decode lite.outcome_root
        ∷ coders.to_le 8 (timestamp_of lite)
        ∷ coders.bs58_decode lite.next_bp_hash
        ∷ coders.bs58_decode lite.block_merkle_root
        ∷ []

    path_parts : List PathItem → List (Result (List ℕ))
    path_parts items =
        coders.to_le 4 (length items) ∷ concat (map (borshify_path_item coders) items) ∷ []

    lite_parts_lem :
        (lite : InnerLite)
        → IsInnerLite coders lite
        → Encodes (concat (lite_parts lite)) decode_inner_lite (view_inner_lite coders lite)
    unfolding lite_parts borshify_inner_lite
    lite_parts_lem lite h = inner_lite_lem coders le lite h

    no_path_lem : Encodes (coders.to_le 4 0) decode_path []
    unfolding decode_path repeat
    no_path_lem =
        let zeroth = uint_lem coders le 4 0 (omega arith) in
        record {
          written = zeroth.written;
          result = zeroth.result;
          decodes = λ rest. rw (zeroth.decodes rest) refl;
        }

    proof_lem :
        (p : OutcomeProof)
        → IsOutcomeProof p
        → Encodes (borshify_outcome_proof coders p) decode_outcome_proof (view_outcome_proof p)
    unfolding borshify_outcome_proof decode_outcome_proof lite_parts path_parts
    proof_lem p h =
        Encodes-append (path_parts p.proof) _ _ _ (map view_item p.proof) _
          (path_lem p.proof h.proof)
          (Encodes-cons _ _ _ _ (bytes_of coders p.block_hash) _ (hash_lem coders le _ h.block_hash)
            (Encodes-cons _ _ _ _ (bytes_of coders p.id) _ (hash_lem coders le _ h.id) (
              Encodes-single _ _ _ (
                Encodes-append (coders.to_le 4 (length p.outcome.logs) ∷ outcome_parts p.outcome) _
                  _ _ (view_outcome p.outcome) _ (outcome_lem p.outcome h.outcome)
                  (Encodes-cons _ _ _ _ [] _ no_path_lem (
                    Encodes-cons _ _ _ _ (bytes_of coders p.prev_block_hash) _
                      (hash_lem coders le _ h.prev_block_hash)
                      (Encodes-cons _ _ _ _ (bytes_of coders p.inner_rest_hash) _
                        (hash_lem coders le _ h.inner_rest_hash)
                        (Encodes-append (lite_parts p.inner_lite) (path_parts p.block_proof) _ _
                          (view_inner_lite coders p.inner_lite) _
                          (lite_parts_lem p.inner_lite h.inner_lite)
                          (Encodes-append (path_parts p.block_proof) [] _ _
                            (map view_item p.block_proof) _ (path_lem p.block_proof h.block_proof)
                            (Encodes-nil _))))))))))

-- Where BN's `toBuffer` is as documented, every base 58 text decodes to 32 bytes, the numbers fit their
-- widths, the status is a success and the outcome has no logs, `borshifyOutcomeProof` does not throw,
-- and the contract's decoder reads the proof back from its bytes, with no proof of the outcome's
-- root, and takes them all.
pub decode_outcome_proof-borshify :
    (coders : Coders) (p : OutcomeProof)
    → IsLittleEndian coders
    → IsOutcomeProof coders p
    → (bs : List ℕ) × (borshify_outcome_proof coders p ≡ ok bs)
      × (decode_outcome_proof bs ≡ some (view_outcome_proof coders p, []))
decode_outcome_proof-borshify coders p le h =
    let whole = proof_lem coders le p h in
    (whole.written, whole.result, rw append-nil at (whole.decodes []))
