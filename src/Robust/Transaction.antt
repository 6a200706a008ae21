-- ===== src/Robust/Transaction.antt =====
-- `signAndSendTransaction` of utils/robust.js. The NEAR provider and the signer are parameters. The logs,
-- which are only printed, are left out.
pub mod Sending
pub mod Verdicts
use rainbow_bridge.Prelude.{
  ℕ, zero, suc, ◌+◌, ◌*◌, ◌≡◌, String, Bool, true, false, not, ◌||◌, Option, none, some, List, [],
  ◌∷◌, ◌++◌, if◌then◌else◌,
}
use rainbow_bridge.Prelude.Js.{JsError, Result, ok, err, error, type_error, includes}
use rainbow_bridge.Prelude.Async.{Async}

-- `result.status`: `none` is `undefined`. The failure is the text that JSON.stringify gives.
pub record TxResult : Type 0 where
  pub success_value : Option String
  pub failure : Option String

-- A signed transaction: its hash and its bytes.
pub record Signed : Type 0 where
  pub tx_hash : List ℕ
  pub encoded : List ℕ

-- The provider and near-api-js over a world `W`. `sign` is given the nonce.
pub record Provider (W : Type 0) : Type 0 where
  pub status : Async W String
  pub sign : ℕ → String → Async W Signed
  pub broadcast : List ℕ → Async W (Unit {0})
  pub tx_status : List ℕ → Async W TxResult
  pub sleep : ℕ → W → W

-- The loop's variables; `last` is what `sendTxnAsync` and `txHash` hold. `sent` lists what was
-- handed to the network, the first one first, as nonces and bytes.
pub record Session (W : Type 0) : Type 0 where
  pub world : W
  pub nonce : ℕ
  pub error_msg : Option String
  pub resend_last : Bool
  pub last : Option Signed
  pub sent : List (ℕ × List ℕ)

abbrev pub is_some : {A : Type 0} → Option A → Bool
is_some none = false
is_some (some a) = true

-- What the rounds decide.
pub data Verdict : Type 0 where
  return : TxResult → Verdict
  throw_error : JsError → Verdict
  next_round stop : Verdict

abbrev pub message_of : Option String → String
message_of none = ""
message_of (some m) = m

module _ {W : Type 0} (provider : Provider W) where
  -- The inner loop with `rounds` left, at index `j`: the last answer, and the last error's message.
  unfoldable pub poll :
      ℕ → ℕ → List ℕ → Option TxResult → Option String → W → Option TxResult × Option String × W
  poll zero j tx_hash result error_msg w = (result, error_msg, w)
  poll (suc rounds) j tx_hash result error_msg w =
      let (answer, w') = provider.tx_status tx_hash w in
      elim answer [
        | ok r ↦ elim (is_some r.success_value || is_some r.failure) [
          | true ↦ (some r, error_msg, w')
          | false ↦ poll rounds (j + 1) tx_hash (some r) error_msg w'
        ]
        | err e ↦
            poll rounds (j + 1) tx_hash result (some e.message) (provider.sleep ((j + 1) * 500) w')
      ]

  -- `sendTxnAsync`.
  unfoldable pub broadcast_last : ℕ → Signed → Session W → Result (Unit {0}) × Session W
  broadcast_last nonce signed s =
      let (r, w) = provider.broadcast signed.encoded s.world in
      (r, record s { world = w; sent = s.sent ++ (nonce, signed.encoded) ∷ [] })

  -- The first half of a round, under its `try`. Signing takes the next nonce, which is kept even if
  -- signing or sending throws.
  unfoldable pub sign_new : Session W → Result (Unit {0}) × Session W
  sign_new s =
      let (status, w) = provider.status s.world in
      elim status [
        | err e ↦ (err e, record s { world = w })
        | ok block_hash ↦
            let nonce = s.nonce + 1 in
            let (signing, w') = provider.sign nonce block_hash w in
            elim signing [
              | err e ↦ (err e, record s { world = w'; nonce = nonce })
              | ok signed ↦
                  broadcast_last nonce signed
                    (record s { world = w'; nonce = nonce; last = some signed })
            ]
      ]

  abbrev pub clear_resend : Result (Unit {0}) × Session W → Result (Unit {0}) × Session W
  clear_resend (ok u, s) = (ok u, record s { resend_last = false })
  clear_resend (err e, s) = (err e, s)

  -- The two branches on `resendLast`.
  unfoldable pub submit_as : Bool → Session W → Result (Unit {0}) × Session W
  submit_as true s = elim s.last [
    | none ↦ (err (type_error "sendTxnAsync is not a function"), s)
    | some signed ↦ clear_resend (broadcast_last s.nonce signed s)
  ]
  submit_as false s = sign_new s

  unfoldable pub submit : Session W → Result (Unit {0}) × Session W
  submit s = submit_as s.resend_last s

  -- What follows the polling: success, failure, no answer. `JSON.stringify(undefined)` is
  -- `undefined`, on which `.includes` throws.
  unfoldable pub judge : Option TxResult → Session W → Verdict × Session W
  judge none s = (next_round, record s { resend_last = true })
  judge (some result) s = elim result.success_value [
    | some v ↦ (return result, s)
    | none ↦ elim result.failure [
      | none ↦ (
        throw_error (type_error "Cannot read property 'includes' of undefined"),
        record s { error_msg = none },
      )
      | some failure ↦ (
        if includes failure "Transaction nonce" then next_round else stop,
        record s { error_msg = some failure },
      )
    ]
  ]

  abbrev pub hash_of : Option Signed → List ℕ
  hash_of none = []
  hash_of (some signed) = signed.tx_hash

  unfoldable pub settle : Session W → Verdict × Session W
  settle s =
      let (result, error_msg, w) = poll 10 0 (hash_of s.last) none s.error_msg s.world in
      judge result (record s { world = w; error_msg = error_msg })

  unfoldable pub one_round : Session W → Verdict × Session W
  one_round s =
      let (submitted, s') = submit s in
      elim submitted [
        | err e ↦ (
          next_round,
          record s' { world = provider.sleep 500 s'.world; error_msg = some e.message },
        )
        | ok u ↦ settle s'
      ]

  unfoldable pub send_rounds : ℕ → Session W → Result TxResult × Session W
  send_rounds zero s = (err (error (message_of s.error_msg)), s)
  send_rounds (suc rounds) s =
      let (verdict, s') = one_round s in
      elim verdict [
        | return result ↦ (ok result, s')
        | throw_error e ↦ (err e, s')
        | stop ↦ (err (error (message_of s'.error_msg)), s')
        | next_round ↦ send_rounds rounds s'
      ]

  unfoldable pub sign_and_send_transaction : ℕ → W → Result TxResult × Session W
  sign_and_send_transaction nonce w = send_rounds 10 (record {
    world = w;
    nonce = nonce;
    error_msg = none;
    resend_last = false;
    last = none;
    sent = [];
  })
