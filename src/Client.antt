-- ===== src/Client.antt =====
-- The contracts on NEAR as objects: `BorshContract`, `txnStatus` and `signAndSendTransactionAsync` of
-- utils/borsh.js. The provider, the signer, base 64 and the writer are parameters; the logs,
-- which are only printed, are left out.
pub mod Calls
pub mod EthBlocks
pub mod Setup
pub mod Proofs
mod Tests
use rainbow_bridge.Prelude.{
  ℕ, zero, suc, ◌+◌, String, Bool, true, false, ◌||◌, Option, none, some, List, [], ◌∷◌,
}
use rainbow_bridge.Prelude.Js.{JsError, Result, ok, err, error}
use rainbow_bridge.Prelude.Async.{Async}
use rainbow_bridge.Borsh.Value.{Value, undefined, bool}
use rainbow_bridge.Borsh.Codec.{
  Library, FieldType, u64, boolean, array, named, Schema, serialize, deserialize,
}
use rainbow_bridge.Robust.Backoff.{backoff}
use rainbow_bridge.Robust.Transaction.{
  TxResult, Signed, Provider, Session, is_some, sign_and_send_transaction,
}

-- A method of a contract; a type of `none` is `null`.
pub record Method : Type 0 where
  pub method_name : String
  pub input_field_type : Option FieldType
  pub output_field_type : Option FieldType

-- The answer to a view call; `none` is `undefined`.
pub record QueryResult : Type 0 where
  pub result : Option (List ℕ)

abbrev pub default_func_call_amount : ℕ
default_func_call_amount = 300_000_000_000_000

-- `gas || DEFAULT_FUNC_CALL_AMOUNT`.
abbrev pub gas_or_default : Option ℕ → ℕ
gas_or_default none = default_func_call_amount
gas_or_default (some zero) = default_func_call_amount
gas_or_default (some (suc n)) = suc n

module _ {W : Type 0} (tx_status : List ℕ → Async W TxResult) (sleep : ℕ → W → W) where
  -- The loop of `txnStatus`; an error is swallowed, and only then it sleeps.
  unfoldable pub poll_status : ℕ → ℕ → List ℕ → Option TxResult → W → Option TxResult × W
  poll_status zero wait tx_hash result w = (result, w)
  poll_status (suc retries) wait tx_hash result w = elim (tx_status tx_hash w).0 [
    | ok r ↦ elim (is_some r.success_value || is_some r.failure) [
      | true ↦ (some r, (tx_status tx_hash w).1)
      | false ↦ poll_status retries wait tx_hash (some r) (tx_status tx_hash w).1
    ]
    | err e ↦ poll_status retries wait tx_hash result (sleep wait (tx_status tx_hash w).1)
  ]

  -- `new Error(undefined)` has an empty message.
  abbrev pub failure_text : Option String → String
  failure_text none = ""
  failure_text (some text) = text

  abbrev pub verdict : Option TxResult → Result TxResult
  verdict none = err (error "Transaction didn't finish")
  verdict (some r) = elim r.success_value [
    | some v ↦ ok r
    | none ↦ err (error (failure_text r.failure))
  ]

  unfoldable pub txn_status : ℕ → ℕ → List ℕ → Async W TxResult
  txn_status retries wait tx_hash w =
      let (result, w') = poll_status retries wait tx_hash none w in (verdict result, w')

module _ {W : Type 0} (provider : Provider W) where
  -- The hash, the access key's nonce afterwards and the world.
  unfoldable pub sign_and_send_transaction_async : ℕ → W → Result (List ℕ) × ℕ × W
  sign_and_send_transaction_async nonce w =
      let (status, w1) = provider.status w in
      elim status [
        | err e ↦ (err e, nonce, w1)
        | ok block_hash ↦
            let (signing, w2) = provider.sign (nonce + 1) block_hash w1 in
            elim signing [
              | err e ↦ (err e, nonce + 1, w2)
              | ok signed ↦
                  let (sending, w3) = provider.broadcast signed.encoded w2 in
                  elim sending [
                    | err e ↦ (err e, nonce + 1, w3)
                    | ok u ↦ (ok signed.tx_hash, nonce + 1, w3)
                  ]
            ]
      ]

module _ {W Buf D : Type 0} (l : Library Buf) (schema : Schema) (depth : ℕ) (times : D → D → D)
    (sleep : D → W → W) (delay wait : D) where
  -- `result.result && result.result.length > 0 && deserialize(...)`.
  abbrev pub view_result : Method → Option (List ℕ) → Result Value
  view_result d none = ok undefined
  view_result d (some []) = ok (bool false)
  view_result d (some (b ∷ bs)) = deserialize l schema depth d.output_field_type (b ∷ bs)

  abbrev finish_view : Method → Result QueryResult × W → Result Value × W
  finish_view d (err e, w) = (err e, w)
  finish_view d (ok q, w) = (view_result d q.result, w)

  abbrev query_with :
      (String → List ℕ → Async W QueryResult) → Method → Result (List ℕ) → Async W Value
  query_with query d (err e) w = (err e, w)
  query_with query d (ok bs) w =
      finish_view d (backoff times sleep 10 (query d.method_name bs) delay wait w)

  -- A view method, through `provider.query`.
  unfoldable pub view_call :
      (String → List ℕ → Async W QueryResult) → Method → Value → Async W Value
  view_call query d args w = query_with query d (serialize l schema depth d.input_field_type args) w

module _ {W Buf : Type 0} (l : Library Buf) (schema : Schema) (depth : ℕ)
    (connect : String → List ℕ → ℕ → Option ℕ → Provider W) (from_base64 : String → List ℕ) where
  -- A `SuccessValue` that is not there throws in `Buffer.from`; a sent transaction has one.
  abbrev pub last_result : TxResult → Result (List ℕ)
  last_result r = elim r.success_value [
    | none ↦
        err (record { name = "TypeError"; message = "The first argument must be of type string" })
    | some text ↦ ok (from_base64 text)
  ]

  abbrev decode_result : Method → Result (List ℕ) → Result Value
  decode_result d (err e) = err e
  decode_result d (ok bs) = deserialize l schema depth d.output_field_type bs

  abbrev finish_change : Method → Result TxResult → Result Value
  finish_change d (err e) = err e
  finish_change d (ok r) = decode_result d (last_result r)

  abbrev send_with : Method → Option ℕ → Option ℕ → ℕ → Result (List ℕ) → W → Result Value × W
  send_with d gas amount nonce (err e) w = (err e, w)
  send_with d gas amount nonce (ok bs) w =
      let (r, session) =
        sign_and_send_transaction (connect d.method_name bs (gas_or_default gas) amount) nonce w in
      (finish_change d r, session.world)

  -- A change method, with its gas and its amount; `connect` has the provider and the signer for an
  -- action `functionCall` with this name, arguments, gas and amount.
  unfoldable pub change_call : Method → Value → Option ℕ → Option ℕ → ℕ → W → Result Value × W
  change_call d args gas amount nonce w =
      send_with d gas amount nonce (serialize l schema depth d.input_field_type args) w

-- The methods of EthOnNearClientContract.
abbrev pub client_view_methods : List Method
client_view_methods =
    record {
      method_name = "initialized";
      input_field_type = none;
      output_field_type = some boolean;
    }
    ∷ record {
      method_name = "dag_merkle_root";
      input_field_type = some (named "dagMerkleRootInput");
      output_field_type = some (named "H128");
    }
    ∷ record {
      method_name = "last_block_number";
      input_field_type = none;
      output_field_type = some u64;
    }
    ∷ record {
      method_name = "block_hash";
      input_field_type = some u64;
      output_field_type = some (named "?H256");
    }
    ∷ record {
      method_name = "known_hashes";
      input_field_type = some u64;
      output_field_type = some (array (named "H256"));
    }
    ∷ record {
      method_name = "block_hash_safe";
      input_field_type = some u64;
      output_field_type = some (named "?H256");
    }
    ∷ []

abbrev pub client_change_methods : List Method
client_change_methods =
    record {
      method_name = "init";
      input_field_type = some (named "initInput");
      output_field_type = none;
    }
    ∷ record {
      method_name = "add_block_header";
      input_field_type = some (named "addBlockHeaderInput");
      output_field_type = none;
    }
    ∷ []

-- The methods of EthOnNearProverContract.
abbrev pub prover_change_methods : List Method
prover_change_methods =
    record {
      method_name = "verify_log_entry";
      input_field_type = some (named "verifyLogEntry");
      output_field_type = some boolean;
    }
    ∷ record {
      method_name = "init";
      input_field_type = some (named "initInput");
      output_field_type = none;
    }
    ∷ record {
      method_name = "assert_ethbridge_hash";
      input_field_type = some (named "assertEthbridgeHashInput");
      output_field_type = some boolean;
    }
    ∷ []
