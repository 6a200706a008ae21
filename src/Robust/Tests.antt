-- ===== src/Robust/Tests.antt =====
-- The theorems about robust calls, at concrete nodes.
use rainbow_bridge.Prelude.{
  ℕ, zero, suc, ◌+◌, ◌*◌, ◌^◌, ◌≤◌, ◌≡◌, refl, ◌⊎◌, inl, inr, String, Bool, true, false, Option,
  none, some, List, [], ◌∷◌, arith, map, length, ◌==◌, ltb, if◌then◌else◌,
}
use rainbow_bridge.Prelude.Js.{JsError, Result, ok, err, error, type_error}
use rainbow_bridge.Prelude.Async.{Async}
use rainbow_bridge.Robust.Backoff.{backoff}
use rainbow_bridge.Robust.Calls.{Node, reconnecting, robust_get_block}
use rainbow_bridge.Robust.Contract.{
  Options, Eth, react, call_loop, call_contract, slow_tx_error_msg,
}
use rainbow_bridge.Robust.Contract.Escalation.{
  Escalates, IsCalm, IsOver, call_contract-Escalates, call_loop_ends,
}
use rainbow_bridge.Robust.Contract.Events.{
  Event, at, named, slot_of, with_name, decode_logs, decode_logs-named,
}
use rainbow_bridge.Robust.Transaction.{
  TxResult, Provider, Session, throw_error, settle, poll, broadcast_last, sign_new, submit_as,
  submit, judge, one_round, send_rounds, sign_and_send_transaction,
}
use rainbow_bridge.Robust.Transaction.Sending.{OneEach, sending-OneEach}
use rainbow_bridge.Robust.Transaction.Verdicts.{
  Succeeded, sending_at_most_ten, sending-Succeeded, settle_undecided,
}

-- A world that counts the calls, and a call that succeeds the third time.
abbrev third_time : Async ℕ ℕ
third_time zero = (err (error "down"), 1)
third_time (suc zero) = (err (error "down"), 2)
third_time (suc (suc n)) = (ok 7, suc (suc (suc n)))

abbrev twice : ℕ → ℕ → ℕ
twice delay wait = delay * wait

abbrev no_sleep : ℕ → ℕ → ℕ
no_sleep delay calls = calls

run_backoff : backoff twice no_sleep 5 third_time 500 2 0 ≡ (ok 7, 3)
unfolding backoff
run_backoff = refl

-- A node that knows no block at first.
abbrev lagging : Async ℕ (Option String)
lagging zero = (ok none, 1)
lagging (suc n) = (ok (some "block"), suc (suc n))

abbrev web3_node : Node ℕ String String
web3_node = record {
  get_block_number = λ w. (ok 3, suc w);
  get_block = λ b. lagging;
  get_transaction_receipt = λ t w. (ok none, suc w);
  set_provider = λ w. w;
}

fetched : robust_get_block web3_node twice no_sleep 500 2 4 0 ≡ (ok "block", 2)
unfolding robust_get_block backoff reconnecting rainbow_bridge.Prelude.Js.to_string
fetched = refl

-- A node that answers every transaction late, in a world that counts the transactions.
abbrev options : Options
options = record { from = "0x1"; handle_revert = true; gas = 100; gas_price = none }

abbrev slow : Eth ℕ String
slow = record {
  get_gas_price = λ w. (ok 5_000_000_000_000, w);
  get_transaction_count = λ address w. (ok 4, w);
  call = λ tx w. (ok tt, w);
  send = λ tx w. (err (error slow_tx_error_msg), suc w);
  set_provider = λ w. w;
}

message_slow :
    (e : JsError)
    → Path (Result String) (err (error slow_tx_error_msg)) (err e)
    → error slow_tx_error_msg ≡ e
message_slow e h = cc

slow-IsCalm : IsCalm slow options "0x2" "0x"
unfolding react
slow-IsCalm tx w e h = inl (rw (← message_slow e h))

call_contract-Escalates_example :
    ((call_contract slow options "0x2" "0x" 3 0).1.sent ≡ [])
    ⊎ ((p n : ℕ) × ((slow.get_gas_price 0).0 ≡ ok p)
        × ((slow.get_transaction_count "0x1" 0).0 ≡ ok n)
        × Escalates slow options "0x2" "0x" p n (call_contract slow options "0x2" "0x" 3 0).1.sent)
call_contract-Escalates_example = call_contract-Escalates slow options "0x2" "0x" 3 0

call_loop_ends_example :
    IsOver slow options "0x2" "0x"
      (call_loop slow options "0x2" "0x" 2 5_000_000_000_000 4 (record { world = 0; sent = [] }))
call_loop_ends_example =
    call_loop_ends slow options "0x2" "0x" 1 5_000_000_000_000 4 (record { world = 0; sent = [] })
      slow-IsCalm (omega arith)

-- Logs of two names, one of them twice.
abbrev log_of : ℕ → Event
log_of n = record { name = if n == 3 then some "Locked" else some "Burnt"; values = "" }

decode_logs-named_example :
    at (decode_logs log_of (1 ∷ 3 ∷ 2 ∷ [])) (named "Burnt")
    ≡ slot_of (with_name "Burnt" (map log_of (1 ∷ 3 ∷ 2 ∷ [])))
decode_logs-named_example = decode_logs-named log_of (1 ∷ 3 ∷ 2 ∷ []) "Burnt"

-- A provider that gives no answer to the first ten questions, and then one of success.
abbrev late : ℕ → Result TxResult
late n =
    if ltb n 10
    then err (error "timeout")
    else ok (record { success_value = some "ok"; failure = none })

abbrev provider : Provider ℕ
provider = record {
  status = λ w. (ok "hash", w);
  sign = λ nonce hash w. (ok (record { tx_hash = nonce ∷ []; encoded = nonce ∷ nonce ∷ [] }), w);
  broadcast = λ bs w. (ok tt, w);
  tx_status = λ h w. (late w, suc w);
  sleep = λ ms w. w;
}

sending-OneEach_example : OneEach (sign_and_send_transaction provider 5 0).1.sent
sending-OneEach_example = sending-OneEach provider 5 0

sending_at_most_ten_example : length (sign_and_send_transaction provider 5 0).1.sent ≤ 10
sending_at_most_ten_example = sending_at_most_ten provider 5 0

run_late :
    (sign_and_send_transaction provider 5 0).0
    ≡ ok (record { success_value = some "ok"; failure = none })
unfolding sign_and_send_transaction send_rounds one_round submit submit_as sign_new broadcast_last
    settle poll judge
run_late = refl

-- The transaction was sent twice, with the same nonce and bytes.
run_late_sent :
    (sign_and_send_transaction provider 5 0).1.sent ≡ (6, 6 ∷ 6 ∷ []) ∷ (6, 6 ∷ 6 ∷ []) ∷ []
unfolding sign_and_send_transaction send_rounds one_round submit submit_as sign_new broadcast_last
    settle poll judge
run_late_sent = refl

sending-Succeeded_example : Succeeded (record { success_value = some "ok"; failure = none })
sending-Succeeded_example =
    sending-Succeeded provider 5 0 (record { success_value = some "ok"; failure = none }) run_late

-- A provider to which every transaction stays under way.
abbrev pending : Provider ℕ
pending = record provider {
  tx_status = λ h w. (ok (record { success_value = none; failure = none }), w);
}

abbrev asked : Session ℕ
asked = record {
  world = 0;
  nonce = 6;
  error_msg = none;
  resend_last = false;
  last = none;
  sent = [];
}

settle_undecided_example :
    (settle pending asked).0
    ≡ throw_error (type_error "Cannot read property 'includes' of undefined")
settle_undecided_example =
    settle_undecided pending asked
      (λ h w. (record { success_value = none; failure = none }, refl, (refl, refl)))
