-- ===== src/Borsh/Borshify/Tests.antt =====
-- The theorem about outcome proofs, at a proof with one item in each path.
use rainbow_bridge.Prelude.{ℕ, ◌≡◌, refl, some, List, [], ◌∷◌, arith}
use rainbow_bridge.Prelude.Js.{ok}
use rainbow_bridge.Borsh.Tests.{coders, coders-IsLittleEndian, lite, hash}
use rainbow_bridge.Borsh.Borshify.{PathItem, success_value, OutcomeProof, borshify_outcome_proof}
use rainbow_bridge.Borsh.Borshify.OutcomeDecoder.{decode_outcome_proof}
use rainbow_bridge.Borsh.Borshify.Outcomes.{
  IsOutcomeProof, view_outcome_proof, decode_outcome_proof-borshify,
}

abbrev path : List PathItem
path = record { hash = ""; direction = "Right" } ∷ []

abbrev proof : OutcomeProof
proof = record {
  proof = path;
  block_hash = "";
  id = "";
  outcome = record {
    logs = [];
    receipt_ids = "" ∷ "" ∷ [];
    gas_burnt = 7;
    tokens_burnt = 8;
    executor_id = 97 ∷ 98 ∷ [];
    status = success_value (5 ∷ 6 ∷ []);
  };
  prev_block_hash = "";
  inner_rest_hash = "";
  inner_lite = lite;
  block_proof = path;
}

proof-IsOutcomeProof : IsOutcomeProof coders proof
proof-IsOutcomeProof = record {
  proof = ((hash, tt), omega arith);
  block_hash = hash;
  id = hash;
  outcome = record {
    no_logs = refl;
    receipt_ids = (hash, (hash, tt));
    receipt_ids_fit = omega arith;
    gas_burnt = omega arith;
    tokens_burnt = omega arith;
    executor_id = omega arith;
    status = omega arith;
  };
  prev_block_hash = hash;
  inner_rest_hash = hash;
  inner_lite = record {
    height = omega arith;
    epoch_id = hash;
    next_epoch_id = hash;
    prev_state_root = hash;
    outcome_root = hash;
    timestamp = omega arith;
    next_bp_hash = hash;
    block_merkle_root = hash;
  };
  block_proof = ((hash, tt), omega arith);
}

decode_outcome_proof-borshify_example :
    (bs : List ℕ) × (borshify_outcome_proof coders proof ≡ ok bs)
    × (decode_outcome_proof bs ≡ some (view_outcome_proof coders proof, []))
decode_outcome_proof-borshify_example =
    decode_outcome_proof-borshify coders proof coders-IsLittleEndian proof-IsOutcomeProof
