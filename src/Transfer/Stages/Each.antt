-- ===== src/Transfer/Stages/Each.antt =====
-- What the stages up to the proof have done when they pass.
use rainbow_bridge.Prelude.{
  ℕ, ◌≡◌, ◌≢◌, inl, inr, refl, sym, ap, ◌∙◌, String, false, Option, none, some, List, [], ◌∷◌, ◌++◌,
}
use rainbow_bridge.Prelude.Js.{ok, err}
use rainbow_bridge.Relay.Near2Eth.Rules.{Said}
use rainbow_bridge.Robust.Contract.{Tx}
use rainbow_bridge.Client.Proofs.{
  ExtractedProof, extract_receipt, extract_block, build_trie, extract_proof,
}
use rainbow_bridge.Client.Proofs.Found.{
  FirstAt, IsReceiptOf, IsTreeOf, IsPathOf, extract_receipt-IsReceiptOf, build_trie-IsTreeOf,
  extract_proof-IsPathOf, searched,
}
use rainbow_bridge.Robust.Calls.{robust_get_block}
use rainbow_bridge.Robust.Contract.{Outcome, ended, running, call_contract}
use rainbow_bridge.Robust.Contract.Escalation.{Escalates, call_contract-Escalates}
use rainbow_bridge.Robust.Contract.Returned.{call_contract-EndsWith}
use rainbow_bridge.Transfer.{
  Locked, FoundProof, TransferLog, approved, locked, proof_found, TransferAct, approves, locks,
  passed, Argument, text, big, Transfer, ◌>>=◌, asks, stage_of_outcome,
}
use rainbow_bridge.Transfer.Passing.{bind-passed, trying-passed, asks-passed, asks-bind}
use rainbow_bridge.Transfer.Stages.{
  Setting, Doing, options, record_transfer_log, calls, call_approve, approve, call_lock,
  record_locked, lock, record_found, find_proof,
}

module _ {W TxReceipt Block Receipt Log Tree PathNode D : Type 0}
    (g : Setting W TxReceipt Block Receipt Log Tree PathNode D) (fuel : ℕ) where
  abbrev State : Type 0
  State = Transfer W Block Receipt Log PathNode

  -- From a state to one with this log and one more act.
  pub record Moved (s : State) (act : TransferAct) (log : TransferLog Block Receipt Log PathNode)
      (t : State) : Type 0 where
    pub new_log : t.log ≡ log
    pub new_acts : t.acts ≡ s.acts ++ act ∷ []

  pub record-passed :
      (log : TransferLog Block Receipt Log PathNode) (s t : State)
      → record_transfer_log g fuel log s ≡ (passed tt, t)
      → (t.log ≡ log) × (t.acts ≡ s.acts)
  unfolding record_transfer_log
  record-passed log s t h =
      let (u, s1, e1, e2) = bind-passed (asks (g.services.write_file log)) _ s t tt h in
      let (said, kept, acts) = asks-passed (g.services.write_file log) s s1 u e1 in
      let state : record s1 { log = log } ≡ t = ap (λ p. p.1) e2 in
      (sym (ap (λ u. u.log) state), sym (ap (λ u. u.acts) state) ∙ acts)

  -- A call of a contract's method was sent: all transactions are this call, from the sender, with the
  -- same gas, at the prices and nonces of `callContract`; the last one has the receipt.
  pub record Called (address method : String) (arguments : List Argument) (sent : List Tx)
      (r : TxReceipt) : Type 0 where
    pub price : ℕ
    pub nonce : ℕ
    pub escalates :
        Escalates g.eth
          (record {
            from = g.args.eth_sender_account;
            handle_revert = false;
            gas = 5_000_000;
            gas_price = none;
          })
          address
          (g.services.encode_abi method arguments)
          price
          nonce
          sent
    pub last : (before : List Tx) × (tx : Tx) × (sent ≡ before ++ tx ∷ []) × Said (g.eth.send tx) r

  sent-Called :
      (address method : String) (arguments : List Argument) (w : W) (r : TxReceipt)
      → (call_contract g.eth
          (options g fuel)
          address
          (g.services.encode_abi method arguments)
          fuel
          w).0
        ≡ ended (ok r)
      → Called address method arguments
          (call_contract g.eth
            (options g fuel)
            address
            (g.services.encode_abi method arguments)
            fuel
            w).1.sent
          r
  sent-Called address method arguments w r h =
      let data_of = g.services.encode_abi method arguments in
      let (before, tx, w', split, said) =
        call_contract-EndsWith g.eth (options g fuel) address data_of fuel w r h in
      elim (call_contract-Escalates g.eth (options g fuel) address data_of fuel w) [
        | inl nothing ↦ absurd (not_empty before tx (sym split ∙ nothing))
        | inr (p, n, _, _, chain) ↦ record {
          price = p;
          nonce = n;
          escalates = chain;
          last = (before, tx, split, (w', said));
        }
      ]
    where
      not_empty : (before : List Tx) (tx : Tx) → before ++ tx ∷ [] ≢ []
      not_empty [] tx e = cc
      not_empty (x ∷ before) tx e = cc

  outcome-returned :
      (o : Outcome TxReceipt) (r : TxReceipt) → stage_of_outcome o ≡ passed r → o ≡ ended (ok r)
  outcome-returned (ended (ok r')) r h = cc
  outcome-returned (ended (err e)) r h = cc
  outcome-returned running r h = cc

  calls-passed :
      (act : List Tx → TransferAct) (address method : String) (arguments : List Argument)
      (s t : State) (r : TxReceipt)
      → calls g fuel act address method arguments s ≡ (passed r, t)
      → (sent : List Tx) × Called address method arguments sent r × Moved s (act sent) s.log t
  unfolding calls
  calls-passed act address method arguments s t r h =
      let state = ap (λ p. p.1) h in
      (
        _,
        sent-Called address method arguments s.world r (outcome-returned _ r (ap (λ p. p.0) h)),
        record { new_log = sym (ap (λ u. u.log) state); new_acts = sym (ap (λ u. u.acts) state) },
      )

  -- The allowance of the locker for the amount.
  abbrev pub Approval : List Tx → TxReceipt → Type 0
  Approval sent r =
      Called g.args.eth_erc20_address "approve"
        (text g.args.eth_locker_address ∷ big g.args.amount ∷ []) sent r

  -- The locking of the amount of the token, for the receiver.
  abbrev pub Locking : List Tx → TxReceipt → Type 0
  Locking sent r =
      Called g.args.eth_locker_address "lockToken"
        (text g.args.eth_erc20_address ∷ big g.args.amount ∷ text g.args.near_receiver_account ∷ [])
        sent r

  pub approve-passed :
      (s t : State)
      → approve g fuel s ≡ (passed tt, t)
      → (sent : List Tx) × (r : TxReceipt) × Approval sent r × Moved s (approves sent) approved t
  unfolding approve
  approve-passed s t h =
      let body : Doing g fuel Unit =
        call_approve g fuel >>= λ r. record_transfer_log g fuel approved in
      let (r, s1, e1, e2) =
        bind-passed (call_approve g fuel) (λ r. record_transfer_log g fuel approved) s t tt
          (trying-passed body 1 s t tt h) in
      let (sent, called, moved) = calls-passed approves _ _ _ s s1 r e1 in
      let (log, acts) = record-passed approved s1 t e2 in
      (sent, r, called, record { new_log = log; new_acts = acts ∙ moved.new_acts })

  pub lock-passed :
      (s t : State)
      → lock g fuel s ≡ (passed tt, t)
      → (sent : List Tx) × (r : TxReceipt) × Locking sent r
        × Moved s (locks sent) (locked (g.services.locked_event r)) t
  unfolding lock
  lock-passed s t h =
      let body : Doing g fuel Unit = call_lock g fuel >>= record_locked g fuel in
      let (r, s1, e1, e2) =
        bind-passed (call_lock g fuel) (record_locked g fuel) s t tt
          (trying-passed body 1 s t tt h) in
      let (sent, called, moved) = calls-passed locks _ _ _ s s1 r e1 in
      let (log, acts) = record-passed (locked (g.services.locked_event r)) s1 t e2 in
      (sent, r, called, record { new_log = log; new_acts = acts ∙ moved.new_acts })

  -- The proof that `findProof` records for an event: the log is the first of the receipt of its
  -- transaction with its index, and the path is that of the receipt in the tree of its block.
  pub record FoundFor (o : Option Locked) (f : FoundProof Block Receipt Log PathNode) : Type 0 where
    pub locked_event : o ≡ some f.locked
    pub of_event :
        IsReceiptOf g.web3 g.libraries g.eth_node g.times g.sleep g.delay g.wait
          f.locked.event.transaction_hash f.receipt
    pub said_block :
        Said
          (robust_get_block g.eth_node g.times g.sleep g.delay g.wait
            (g.web3.block_number f.receipt))
          f.block
    pub tree : Tree
    pub of_receipts :
        IsTreeOf g.web3 g.libraries g.eth_node g.times g.sleep g.delay g.wait f.block tree
    pub path :
        IsPathOf g.web3 g.libraries g.eth_node g.times g.sleep g.delay g.wait f.block tree
          (g.web3.transaction_index f.receipt)
          f.proof
    pub index : ℕ
    pub wanted : f.locked.event.log_index ≡ some index
    pub first :
        FirstAt g.web3 g.libraries g.eth_node g.times g.sleep g.delay g.wait index
          (g.web3.logs f.receipt)
          f.tx_log_index
          f.log

  found-passed :
      (ev : Locked) (receipt : Receipt) (block : Block) (proof : ExtractedProof PathNode)
      (o : Option (ℕ × Log)) (s t : State)
      → record_found g fuel ev receipt block proof o s ≡ (passed tt, t)
      → (i : ℕ) × (log : Log) × (o ≡ some (i, log))
        × (t.log
            ≡ proof_found (record {
              locked = ev;
              proof = proof;
              log = log;
              tx_log_index = i;
              receipt = receipt;
              block = block;
            }))
        × (t.acts ≡ s.acts)
  found-passed ev receipt block proof none s t h = cc
  found-passed ev receipt block proof (some (i, log)) s t h =
      let (e1, e2) = record-passed _ s t h in (i, log, refl, e1, e2)

  pub find-passed :
      (o : Option Locked) (s t : State)
      → find_proof g fuel o s ≡ (passed tt, t)
      → (f : FoundProof Block Receipt Log PathNode) × FoundFor o f
        × (t.log ≡ proof_found f)
        × (t.acts ≡ s.acts)
  unfolding find_proof extract_block
  find-passed none s t h = cc
  find-passed (some ev) s t h =
      let receipt_of =
        extract_receipt g.web3 g.libraries g.eth_node g.times g.sleep g.delay g.wait
          ev.event.transaction_hash in
      let (receipt, s1, said1, log1, acts1, h1) = asks-bind receipt_of _ s t tt h in
      let block_of =
        extract_block g.web3 g.libraries g.eth_node g.times g.sleep g.delay g.wait
          (g.web3.block_number receipt) in
      let (block, s2, said2, log2, acts2, h2) = asks-bind block_of _ s1 t tt h1 in
      let tree_of = build_trie g.web3 g.libraries g.eth_node g.times g.sleep g.delay g.wait block in
      let (tree, s3, said3, log3, acts3, h3) = asks-bind tree_of _ s2 t tt h2 in
      let proof_of =
        extract_proof g.web3 g.libraries g.eth_node g.times g.sleep g.delay g.wait block tree
          (g.web3.transaction_index receipt) in
      let (proof, s4, said4, log4, acts4, h4) = asks-bind proof_of _ s3 t tt h3 in
      let (i, log, hit, new_log, new_acts) = found-passed ev receipt block proof _ s4 t h4 in
      let (index, wanted, first) =
        searched g.web3 g.libraries g.eth_node g.times g.sleep g.delay g.wait receipt
          ev.event.log_index i log hit in
      (
        _,
        record {
          locked_event = refl;
          of_event =
              extract_receipt-IsReceiptOf g.web3 g.libraries g.eth_node g.times g.sleep g.delay
                g.wait ev.event.transaction_hash receipt said1.0 said1.1;
          said_block = said2;
          tree = tree;
          of_receipts =
              build_trie-IsTreeOf g.web3 g.libraries g.eth_node g.times g.sleep g.delay g.wait block
                tree said3.0 said3.1;
          path =
              extract_proof-IsPathOf g.web3 g.libraries g.eth_node g.times g.sleep g.delay g.wait
                block tree (g.web3.transaction_index receipt) proof said4.0 said4.1;
          index = index;
          wanted = wanted;
          first = first;
        },
        new_log,
        new_acts ∙ acts4 ∙ acts3 ∙ acts2 ∙ acts1,
      )
