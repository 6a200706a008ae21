-- ===== src/Robust/Contract/Escalation.antt =====
-- The prices and nonces of the transactions that `callContract` sends, and the end of its loop.
use rainbow_bridge.Prelude.{
  ℕ, zero, suc, Option, none, some, ◌+◌, ◌*◌, ◌^◌, ◌≤◌, ◌<◌, ◌≡◌, refl, sym, ap, ◌∙◌, ◌⊎◌, inl, inr,
  String, false, List, [], ◌∷◌, ◌++◌, arith, ltb, Bool-cases, ltb→lt, append-nil, append_assoc,
}
use rainbow_bridge.Prelude.Js.{JsError, Result, ok, err, error}
use native.Mathlib.Nat.{pow-suc}
use rainbow_bridge.Robust.Contract.{
  Options, Tx, Eth, State, gas_price_limit, Reaction, double_price, next_nonce, reconnect, give_up,
  react, make_tx, Outcome, ended, attempt, recover, after, call_loop, call_contract,
}

module _ {W Receipt : Type 0} (eth : Eth W Receipt) (options : Options) (to payload : String) where
  -- The price of a transaction, where the loop stands at this one: the price of the options, if they
  -- have one and it is not 0.
  abbrev pub IsPrice : Option ℕ → ℕ → ℕ → Type 0
  IsPrice none p price = price ≡ p
  IsPrice (some zero) p price = price ≡ p
  IsPrice (some (suc fixed)) p price = price ≡ suc fixed

  -- The call as a transaction, at a price and a nonce.
  pub record IsCallAt (p n : ℕ) (tx : Tx) : Type 0 where
    pub sender : tx.from ≡ options.from
    pub contract : tx.to ≡ to
    pub call_data : tx.payload ≡ payload
    pub limit : tx.gas ≡ options.gas
    pub reverts : tx.handle_revert ≡ options.handle_revert
    pub price : IsPrice options.gas_price p tx.gas_price
    pub number : tx.nonce ≡ n

  make_tx-IsPrice :
      (o : Option ℕ) (p n : ℕ)
      → options.gas_price ≡ o
      → IsPrice o p (make_tx options to payload p n).gas_price
  unfolding make_tx
  make_tx-IsPrice none p n q = rw q
  make_tx-IsPrice (some zero) p n q = rw q
  make_tx-IsPrice (some (suc fixed)) p n q = rw q

  make_tx-IsCallAt : (p n : ℕ) → IsCallAt p n (make_tx options to payload p n)
  make_tx-IsCallAt p n = record {
    sender = unfold make_tx in refl;
    contract = unfold make_tx in refl;
    call_data = unfold make_tx in refl;
    limit = unfold make_tx in refl;
    reverts = unfold make_tx in refl;
    price = make_tx-IsPrice options.gas_price p n refl;
    number = unfold make_tx in refl;
  }

  -- From a price and a nonce: each transaction is the call at a price below the limit; the next one is
  -- at twice the price and the same nonce, or at the same price and the next nonce, or at the same.
  pub data Escalates : ℕ → ℕ → List Tx → Type 0 where
    stop : {p n : ℕ} → Escalates p n []
    last : {p n : ℕ} {tx : Tx} → p < gas_price_limit → IsCallAt p n tx → Escalates p n (tx ∷ [])
    doubled :
        {p n : ℕ} {tx : Tx} {txs : List Tx}
        → p < gas_price_limit
        → IsCallAt p n tx
        → Escalates (p * 2) n txs
        → Escalates p n (tx ∷ txs)
    renumbered :
        {p n : ℕ} {tx : Tx} {txs : List Tx}
        → p < gas_price_limit
        → IsCallAt p n tx
        → Escalates p (n + 1) txs
        → Escalates p n (tx ∷ txs)
    resent :
        {p n : ℕ} {tx : Tx} {txs : List Tx}
        → p < gas_price_limit
        → IsCallAt p n tx
        → Escalates p n txs
        → Escalates p n (tx ∷ txs)

  -- What a run adds to the transactions sent.
  abbrev Adds : ℕ → ℕ → State W → Outcome Receipt × State W → Type 0
  Adds p n s r = (txs : List Tx) × (r.1.sent ≡ s.sent ++ txs) × Escalates p n txs

  one_more :
      (s s' : State W) (tx : Tx) (more : List Tx) (r : Outcome Receipt × State W)
      → s'.sent ≡ s.sent ++ tx ∷ []
      → r.1.sent ≡ s'.sent ++ more
      → r.1.sent ≡ s.sent ++ tx ∷ more
  one_more s s' tx more r e q = q ∙ rw (e, append_assoc)

  recover-Adds :
      (loop : ℕ → ℕ → State W → Outcome Receipt × State W)
      → ((p n : ℕ) (s : State W) → Adds p n s (loop p n s))
      → (e : JsError) (q : Reaction) (p n : ℕ) (s s' : State W) → react e ≡ q
      → p < gas_price_limit
      → s'.sent ≡ s.sent ++ make_tx options to payload p n ∷ []
      → Adds p n s (recover eth options to payload loop e p n s')
  unfolding recover
  recover-Adds loop adds e double_price p n s s' q low sent =
      let (txs, grown, chain) = adds (p * 2) n s' in
      let tx = make_tx options to payload p n in
      (
        tx ∷ txs,
        rw (q, recover) (one_more s s' tx txs (loop (p * 2) n s') sent grown),
        doubled low (make_tx-IsCallAt p n) chain,
      )
  recover-Adds loop adds e next_nonce p n s s' q low sent =
      let (txs, grown, chain) = adds p (n + 1) s' in
      let tx = make_tx options to payload p n in
      (
        tx ∷ txs,
        rw (q, recover) (one_more s s' tx txs (loop p (n + 1) s') sent grown),
        renumbered low (make_tx-IsCallAt p n) chain,
      )
  recover-Adds loop adds e reconnect p n s s' q low sent =
      let back : State W = record s' { world = eth.set_provider s'.world } in
      let (txs, grown, chain) = adds p n back in
      let tx = make_tx options to payload p n in
      (
        tx ∷ txs,
        rw (q, recover) (one_more s back tx txs (loop p n back) sent grown),
        resent low (make_tx-IsCallAt p n) chain,
      )
  recover-Adds loop adds e give_up p n s s' q low sent =
      (make_tx options to payload p n ∷ [], rw (q, recover) sent, last low (make_tx-IsCallAt p n))

  after-Adds :
      (loop : ℕ → ℕ → State W → Outcome Receipt × State W)
      → ((p n : ℕ) (s : State W) → Adds p n s (loop p n s))
      → (r : Result Receipt) (p n : ℕ) (s s' : State W) → p < gas_price_limit
      → s'.sent ≡ s.sent ++ make_tx options to payload p n ∷ []
      → Adds p n s (after eth options to payload loop r p n s')
  unfolding after
  after-Adds loop adds (ok receipt) p n s s' low sent =
      (make_tx options to payload p n ∷ [], sent, last low (make_tx-IsCallAt p n))
  after-Adds loop adds (err e) p n s s' low sent =
      recover-Adds loop adds e (react e) p n s s' refl low sent

  loop-Adds :
      (fuel p n : ℕ) (s : State W) → Adds p n s (call_loop eth options to payload fuel p n s)
  unfolding call_loop
  loop-Adds zero p n s = ([], sym (append-nil s.sent), stop)
  loop-Adds (suc fuel) p n s = elim (Bool-cases (ltb p gas_price_limit)) [
    | inr no_more ↦ rw no_more ([], sym (append-nil s.sent), stop)
    | inl low ↦ rw low (
        after-Adds (call_loop eth options to payload fuel) (loop-Adds fuel)
          (attempt eth options to payload p n s).0 p n s (attempt eth options to payload p n s).1
          (ltb→lt p gas_price_limit low) (unfold attempt in refl))
  ]

  -- Whatever the node answers, all transactions that a call of `callContract` sends have its sender,
  -- contract, payload and gas; the first has the node's transaction count as its nonce, and its price
  -- is the node's; from one to the next either the price doubles, or the nonce grows by one, or
  -- nothing changes. Where the options have a price, not 0, it is the price of each, and what starts
  -- at the node's price, doubles and stays below the limit is the price that the loop counts.
  pub call_contract-Escalates :
      (fuel : ℕ) (w : W)
      → ((call_contract eth options to payload fuel w).1.sent ≡ [])
        ⊎ ((p n : ℕ) × ((eth.get_gas_price w).0 ≡ ok p)
            × ((eth.get_transaction_count options.from (eth.get_gas_price w).1).0 ≡ ok n)
            × Escalates p n (call_contract eth options to payload fuel w).1.sent)
  unfolding call_contract
  call_contract-Escalates fuel w =
      go (eth.get_gas_price w).0 (eth.get_transaction_count options.from (eth.get_gas_price w).1).0
        refl refl
    where
      go :
          (price count : Result ℕ)
          → (eth.get_gas_price w).0 ≡ price
          → (eth.get_transaction_count options.from (eth.get_gas_price w).1).0 ≡ count
          → ((call_contract eth options to payload fuel w).1.sent ≡ [])
            ⊎ ((p n : ℕ) × ((eth.get_gas_price w).0 ≡ ok p)
                × ((eth.get_transaction_count options.from (eth.get_gas_price w).1).0 ≡ ok n)
                × Escalates p n (call_contract eth options to payload fuel w).1.sent)
      go (err e) count a b = inl (rw (a, call_contract))
      go (ok p) (err e) a b = inl (rw (a, call_contract) (rw b))
      go (ok p) (ok n) a b =
          let w2 = (eth.get_transaction_count options.from (eth.get_gas_price w).1).1 in
          let start : State W = record { world = w2; sent = [] } in
          let (txs, grown, chain) = loop-Adds fuel p n start in
          let run : (call_contract eth options to payload fuel w).1.sent ≡ txs =
            rw (a, call_contract) (rw b grown) in
          inr (p, n, a, b, rw run chain)

  -- Errors that leave the price and the nonce alone do not occur.
  abbrev pub IsCalm : Type 0
  IsCalm =
      (tx : Tx) (w : W) (e : JsError)
      → (eth.send tx w).0 ≡ err e
      → (react e ≡ double_price) ⊎ (react e ≡ give_up)

  abbrev pub IsOver : Outcome Receipt × State W → Type 0
  IsOver o = (r : Result Receipt) × (o.0 ≡ ended r)

  after_ends :
      (loop : ℕ → ℕ → State W → Outcome Receipt × State W) (r : Result Receipt) (p n : ℕ)
      (s : State W)
      → IsOver (loop (p * 2) n s)
      → ((e : JsError) → r ≡ err e → (react e ≡ double_price) ⊎ (react e ≡ give_up))
      → IsOver (after eth options to payload loop r p n s)
  unfolding after recover
  after_ends loop (ok receipt) p n s (r, over) calm = (ok receipt, refl)
  after_ends loop (err e) p n s (r, over) calm = elim (calm e refl) [
    | inl double ↦ (r, rw (double, recover) over)
    | inr final ↦ (err e, rw (final, recover))
  ]

  -- On a node whose errors are calm, at a gas price from which `fuel` doublings reach the limit, the
  -- loop with one more round than that ends: it returns or throws.
  pub call_loop_ends :
      (fuel p n : ℕ) (s : State W)
      → IsCalm
      → gas_price_limit ≤ p * 2 ^ fuel
      → IsOver (call_loop eth options to payload (suc fuel) p n s)
  unfolding call_loop
  call_loop_ends zero p n s calm enough =
      let above : ltb p gas_price_limit ≡ false = ground arith in
      rw above (err (error "Cannot finish txn within 1e13 gas"), refl)
  call_loop_ends (suc fuel) p n s calm enough = elim (Bool-cases (ltb p gas_price_limit)) [
    | inr no_more ↦ rw no_more (err (error "Cannot finish txn within 1e13 gas"), refl)
    | inl low ↦
        let tx = make_tx options to payload p n in
        let tried = attempt eth options to payload p n s in
        rw low (
          after_ends (call_loop eth options to payload (suc fuel)) tried.0 p n tried.1
            (call_loop_ends fuel (p * 2) n tried.1 calm
              (omega (arith, ap (λ (t : ℕ). p * t) (pow-suc 2 fuel))))
            (unfold attempt in calm tx (eth.call tx s.world).1))
  ]
