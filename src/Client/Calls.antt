-- ===== src/Client/Calls.antt =====
-- What the calls of a contract return.
use rainbow_bridge.Prelude.{
  ℕ, zero, suc, ◌≡◌, refl, sym, ◌∙◌, String, ◌||◌, Option, none, some, List, ◌∷◌, Bool-cases, inl,
  inr,
}
use rainbow_bridge.Prelude.Js.{JsError, Result, ok, err}
use rainbow_bridge.Prelude.Async.{Async}
use rainbow_bridge.Borsh.Value.{Value}
use rainbow_bridge.Borsh.Codec.{Library, FieldType, Schema, serialize, deserialize}
use rainbow_bridge.Borsh.Codec.Laws.{LibraryLaws, Fits}
use rainbow_bridge.Borsh.Codec.RoundTrip.{deserialize-serialize}
use rainbow_bridge.Robust.Backoff.{backoff}
use rainbow_bridge.Robust.Transaction.{TxResult, is_some}
use rainbow_bridge.Robust.Transaction.Verdicts.{Succeeded}
use rainbow_bridge.Client.{QueryResult, view_call, poll_status, verdict, txn_status}

ok_eq : {A : Type 0} (a b : A) → Path (Result A) (ok a) (ok b) → a ≡ b
ok_eq a b h = cc

-- The encoding of a value that fits, from which `deserialize` reads it back.
encoded_back :
    {Buf : Type 0} (l : Library Buf) (schema : Schema) (depth : ℕ) (ft : FieldType) (v : Value)
    (bs : List ℕ)
    → LibraryLaws l
    → Fits schema depth ft v
    → serialize l schema depth (some ft) v ≡ ok bs
    → deserialize l schema depth (some ft) bs ≡ ok v
encoded_back l schema depth ft v bs laws h e =
    let (bs', e', back) = deserialize-serialize l schema depth ft v laws h in
    let same : bs' ≡ bs = ok_eq bs' bs (sym e' ∙ e) in rw same at back

module _ {W Buf D : Type 0} (l : Library Buf) (schema : Schema) (depth : ℕ) (times : D → D → D)
    (sleep : D → W → W) (delay wait : D) where
  -- Where the arguments encode and the contract, asked at once or again, answers with the encoding of
  -- a value of the method's type, which is not empty, the view method returns this value.
  pub view_call_lem :
      (query : String → List ℕ → Async W QueryResult) (name : String) (input : Option FieldType)
      (ft : FieldType) (args v : Value) (arg_bytes : List ℕ) (b : ℕ) (bs : List ℕ) (w w' : W)
      → LibraryLaws l
      → Fits schema depth ft v
      → serialize l schema depth input args ≡ ok arg_bytes
      → serialize l schema depth (some ft) v ≡ ok (b ∷ bs)
      → backoff times sleep 10 (query name arg_bytes) delay wait w
        ≡ (ok (record { result = some (b ∷ bs) }), w')
      → view_call l schema depth times sleep delay wait query
          (record { method_name = name; input_field_type = input; output_field_type = some ft })
          args
          w
        ≡ (ok v, w')
  unfolding view_call
  view_call_lem query name input ft args v arg_bytes b bs w w' laws h e e' q =
      rw (e, q, encoded_back l schema depth ft v (b ∷ bs) laws h e')

module _ {W : Type 0} (tx_status : List ℕ → Async W TxResult) (sleep : ℕ → W → W) where
  -- An answer of the node about this transaction.
  abbrev pub Answered : List ℕ → TxResult → Type 0
  Answered tx_hash r = (w : W) × ((tx_status tx_hash w).0 ≡ ok r)

  abbrev AnsweredIf : List ℕ → Option TxResult → Type 0
  AnsweredIf tx_hash none = Unit
  AnsweredIf tx_hash (some r) = Answered tx_hash r

  poll_status-AnsweredIf :
      (retries wait : ℕ) (h : List ℕ) (found : Option TxResult) (w : W)
      → AnsweredIf h found
      → AnsweredIf h (poll_status tx_status sleep retries wait h found w).0
  unfolding poll_status
  poll_status-AnsweredIf zero wait h found w a = a
  poll_status-AnsweredIf (suc retries) wait h found w a =
      go (tx_status h w).0 refl
        (λ r q. poll_status-AnsweredIf retries wait h (some r) (tx_status h w).1 (w, q))
        (poll_status-AnsweredIf retries wait h found (sleep wait (tx_status h w).1) a)
    where
      Goal : Type 0
      Goal = AnsweredIf h (poll_status tx_status sleep (suc retries) wait h found w).0

      go :
          (o : Result TxResult)
          → (tx_status h w).0 ≡ o
          → ((r : TxResult)
              → (tx_status h w).0 ≡ ok r
              → AnsweredIf h
                  (poll_status tx_status sleep retries wait h (some r) (tx_status h w).1).0)
          → AnsweredIf h
              (poll_status tx_status sleep retries wait h found (sleep wait (tx_status h w).1)).0
          → Goal
      go (err e) q next again = rw (q, poll_status) again
      go (ok r) q next again = elim (Bool-cases (is_some r.success_value || is_some r.failure)) [
        | inl decided ↦ rw (q, poll_status) (rw decided (w, q))
        | inr pending ↦ rw (q, poll_status) (rw pending (next r q))
      ]

  -- `txnStatus` returns only a result that the node gave for this transaction, and one of success.
  pub txn_status-ok :
      (retries wait : ℕ) (h : List ℕ) (w : W) (result : TxResult)
      → (txn_status tx_status sleep retries wait h w).0 ≡ ok result
      → Answered h result × Succeeded result
  unfolding txn_status
  txn_status-ok retries wait h w result e =
      go (poll_status tx_status sleep retries wait h none w).0 e
        (poll_status-AnsweredIf retries wait h none w tt)
    where
      judged :
          (r : TxResult) (s : Option String)
          → r.success_value ≡ s
          → verdict tx_status sleep (some r) ≡ ok result
          → Answered h r
          → Answered h result × Succeeded result
      judged r none q k a = absurd (bad (rw q at k))
        where
          bad : {x : JsError} → Path (Result TxResult) (err x) (ok result) → ⊥
          bad k = cc
      judged r (some v) q k a =
          let same : r ≡ result = ok_eq r result (rw q at k) in (rw (← same) a, (v, rw (← same) q))

      go :
          (o : Option TxResult)
          → verdict tx_status sleep o ≡ ok result
          → AnsweredIf h o
          → Answered h result × Succeeded result
      go none k a = cc
      go (some r) k a = judged r r.success_value refl k a
