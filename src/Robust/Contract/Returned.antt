-- ===== src/Robust/Contract/Returned.antt =====
-- What `callContract` returns is the receipt of the last transaction that it sent.
use rainbow_bridge.Prelude.{
  ℕ, zero, suc, ◌+◌, ◌*◌, ◌≡◌, refl, String, List, [], ◌∷◌, ◌++◌, inl, inr, ltb, Bool-cases,
}
use rainbow_bridge.Prelude.Js.{JsError, Result, ok, err}
use rainbow_bridge.Robust.Contract.{
  Options, Tx, Eth, State, gas_price_limit, Reaction, double_price, next_nonce, reconnect, give_up,
  react, make_tx, Outcome, ended, attempt, recover, after, call_loop, call_contract,
}

module _ {W Receipt : Type 0} (eth : Eth W Receipt) (options : Options) (to payload : String) where
  -- The last transaction was sent with this receipt.
  abbrev pub EndsWith : List Tx → Receipt → Type 0
  EndsWith sent r =
      (before : List Tx) × (tx : Tx) × (w : W) × (sent ≡ before ++ tx ∷ [])
      × ((eth.send tx w).0 ≡ ok r)

  -- If it returns, its last transaction is that of the receipt.
  abbrev Returns : Outcome Receipt × State W → Type 0
  Returns o = (r : Receipt) → o.0 ≡ ended (ok r) → EndsWith o.1.sent r

  recover-Returns :
      (loop : ℕ → ℕ → State W → Outcome Receipt × State W)
      → ((p n : ℕ) (s : State W) → Returns (loop p n s))
      → (e : JsError) (q : Reaction) (p n : ℕ) (s : State W) → react e ≡ q
      → Returns (recover eth options to payload loop e p n s)
  unfolding recover
  recover-Returns loop later e double_price p n s q r h =
      rw (q, recover) (later (p * 2) n s r (rw (q, recover) at h))
  recover-Returns loop later e next_nonce p n s q r h =
      rw (q, recover) (later p (n + 1) s r (rw (q, recover) at h))
  recover-Returns loop later e reconnect p n s q r h =
      rw (q, recover)
        (later p n (record s { world = eth.set_provider s.world }) r (rw (q, recover) at h))
  recover-Returns loop later e give_up p n s q r h = cc (rw (q, recover) at h)

  after-Returns :
      (loop : ℕ → ℕ → State W → Outcome Receipt × State W)
      → ((p n : ℕ) (s : State W) → Returns (loop p n s))
      → (result : Result Receipt) (p n : ℕ) (s s' : State W) (tx : Tx) (w : W)
      → s'.sent ≡ s.sent ++ tx ∷ []
      → (eth.send tx w).0 ≡ result
      → Returns (after eth options to payload loop result p n s')
  unfolding after
  after-Returns loop later (ok receipt) p n s s' tx w sent said r h =
      let same : receipt ≡ r = cc in (s.sent, tx, w, sent, rw same at said)
  after-Returns loop later (err e) p n s s' tx w sent said r h =
      recover-Returns loop later e (react e) p n s' refl r h

  loop-Returns :
      (fuel p n : ℕ) (s : State W) → Returns (call_loop eth options to payload fuel p n s)
  unfolding call_loop
  loop-Returns zero p n s r h = cc
  loop-Returns (suc fuel) p n s r h = elim (Bool-cases (ltb p gas_price_limit)) [
    | inr no_more ↦ cc (rw no_more at h)
    | inl low ↦ rw low (
        after-Returns (call_loop eth options to payload fuel) (loop-Returns fuel)
          (attempt eth options to payload p n s).0 p n s (attempt eth options to payload p n s).1
          (make_tx options to payload p n) (eth.call (make_tx options to payload p n) s.world).1
          (unfold attempt in refl) (unfold attempt in refl) r (rw low at h))
  ]

  pub call_contract-EndsWith :
      (fuel : ℕ) (w : W) (r : Receipt)
      → (call_contract eth options to payload fuel w).0 ≡ ended (ok r)
      → EndsWith (call_contract eth options to payload fuel w).1.sent r
  unfolding call_contract
  call_contract-EndsWith fuel w r h =
      go (eth.get_gas_price w).0 (eth.get_transaction_count options.from (eth.get_gas_price w).1).0
        refl refl
    where
      go :
          (price count : Result ℕ)
          → (eth.get_gas_price w).0 ≡ price
          → (eth.get_transaction_count options.from (eth.get_gas_price w).1).0 ≡ count
          → EndsWith (call_contract eth options to payload fuel w).1.sent r
      go (err e) count a b = cc (rw (a, call_contract) at h)
      go (ok p) (err e) a b = cc (rw b at (rw (a, call_contract) at h))
      go (ok p) (ok n) a b =
          rw (a, call_contract)
            (rw b (
              loop-Returns fuel p n
                (record {
                  world = (eth.get_transaction_count options.from (eth.get_gas_price w).1).1;
                  sent = [];
                })
                r (rw b at (rw (a, call_contract) at h))))
