-- ===== src/Client/Tests.antt =====
-- The theorems about the contracts on NEAR, at concrete answers.
use rainbow_bridge.Prelude.{
  ℕ, zero, suc, ◌≡◌, refl, String, true, Option, none, some, List, [], ◌∷◌, arith,
}
use rainbow_bridge.Prelude.Int.{ℤ, pos}
use rainbow_bridge.Prelude.Js.{ok, err, error}
use rainbow_bridge.Prelude.Async.{Async}
use rainbow_bridge.Borsh.Value.{null, big, le_bytes}
use rainbow_bridge.Borsh.Codec.{u64, serialize, serialize_field, serialize_case, deserialize}
use rainbow_bridge.Borsh.Codec.Laws.{Fits}
use rainbow_bridge.Borsh.Tests.{plain, plain-LibraryLaws}
use rainbow_bridge.Robust.Backoff.{backoff}
use rainbow_bridge.Robust.Transaction.{
  TxResult, Provider, sign_and_send_transaction, send_rounds, one_round, submit, submit_as,
  sign_new, broadcast_last, settle, poll, judge,
}
use rainbow_bridge.Client.{Method, QueryResult, view_call, change_call, poll_status, txn_status}
use rainbow_bridge.Client.Calls.{view_call_lem}
use rainbow_bridge.Client.EthBlocks.{get_eth_block, ask_block, EndsAs, get_eth_block_lem}
use rainbow_bridge.Client.Setup.{
  Setup, maybe_initialize, access_key_init, is_initialized, init_from_head, check_roots, done, Said,
  maybe_initialize-done,
}

abbrev no_sleep : ℕ → ℕ → ℕ
no_sleep ms w = w

abbrev times : ℕ → ℕ → ℕ
times a b = a

-- The contract says that the last block is 258.
abbrev query : String → List ℕ → Async ℕ QueryResult
query name bs w = (ok (record { result = some (2 ∷ 1 ∷ 0 ∷ 0 ∷ 0 ∷ 0 ∷ 0 ∷ 0 ∷ []) }), w)

abbrev last_block_number : Method
last_block_number = record {
  method_name = "last_block_number";
  input_field_type = none;
  output_field_type = some u64;
}

fits : Fits [] 1 u64 (big 258)
unfolding Fits
fits = omega arith

no_arguments : serialize plain [] 1 none null ≡ ok []
unfolding serialize
no_arguments = refl

answer : serialize plain [] 1 (some u64) (big 258) ≡ ok (2 ∷ 1 ∷ 0 ∷ 0 ∷ 0 ∷ 0 ∷ 0 ∷ 0 ∷ [])
unfolding serialize serialize_field serialize_case le_bytes
answer = refl

asked :
    backoff times no_sleep 10 (query "last_block_number" []) 500 1 0
    ≡ (ok (record { result = some (2 ∷ 1 ∷ 0 ∷ 0 ∷ 0 ∷ 0 ∷ 0 ∷ 0 ∷ []) }), 0)
unfolding backoff
asked = refl

view_call_lem_example :
    view_call plain [] 1 times no_sleep 500 1 query last_block_number null 0 ≡ (ok (big 258), 0)
view_call_lem_example =
    view_call_lem plain [] 1 times no_sleep 500 1 query "last_block_number" none u64 null (big 258)
      [] 2 (1 ∷ 0 ∷ 0 ∷ 0 ∷ 0 ∷ 0 ∷ 0 ∷ []) 0 0 plain-LibraryLaws fits no_arguments answer asked

-- A provider to which every transaction succeeds.
abbrev success : TxResult
success = record { success_value = some ""; failure = none }

abbrev connect : String → List ℕ → ℕ → Option ℕ → Provider ℕ
connect name bs gas amount = record {
  status = λ w. (ok "hash", w);
  sign = λ nonce hash w. (ok (record { tx_hash = nonce ∷ []; encoded = bs }), w);
  broadcast = λ bytes w. (ok tt, w);
  tx_status = λ h w. (ok success, w);
  sleep = no_sleep;
}

abbrev no_base64 : String → List ℕ
no_base64 text = []

abbrev init : Method
init = record { method_name = "init"; input_field_type = none; output_field_type = none }

changed : (change_call plain [] 1 connect no_base64 init null none none 4 0).0 ≡ ok null
unfolding change_call serialize deserialize sign_and_send_transaction send_rounds one_round submit
    submit_as sign_new broadcast_last settle poll judge
changed = refl

abbrev always : List ℕ → Async ℕ TxResult
always h w = (ok success, w)

decided : (txn_status always no_sleep 10 1000 (1 ∷ []) 0).0 ≡ ok success
unfolding txn_status poll_status
decided = refl

-- A node that gives no block at first.
abbrev post : ℤ → Async ℕ (Option String)
post number zero = (ok none, 1)
post number (suc w) = (ok (some "block"), suc (suc w))

get_eth_block_lem_example :
    EndsAs post no_sleep 10 (pos 7) 0 (get_eth_block post no_sleep (pos 7) 0).0
get_eth_block_lem_example = get_eth_block_lem post no_sleep (pos 7) 0

abbrev root : ℕ → String
root zero = "0x55b891e842e58f58956a847cbbf67821"
root (suc n) = "0x7a9010568819de327a24fa495029adcb"

abbrev setup : Setup ℕ String
setup = record {
  find_access_key = λ w. (ok true, w);
  initialized = λ w. (err (error "not there"), w);
  get_block_number = λ w. (ok 7, w);
  post = λ n w. (ok (some "block"), w);
  sleep = no_sleep;
  block_to_rlp = λ block w. (ok [], w);
  init = λ rlp w. (ok tt, suc w);
  dag_merkle_root = λ epoch w. (ok (root epoch), w);
}

set_up : (maybe_initialize setup 0).0 ≡ ok done
unfolding maybe_initialize access_key_init is_initialized init_from_head check_roots get_eth_block
    ask_block
set_up = refl

maybe_initialize-done_example :
    Said setup setup.find_access_key true
    × Said setup (setup.dag_merkle_root 0) "0x55b891e842e58f58956a847cbbf67821"
    × Said setup (setup.dag_merkle_root 511) "0x7a9010568819de327a24fa495029adcb"
maybe_initialize-done_example = maybe_initialize-done setup 0 set_up
