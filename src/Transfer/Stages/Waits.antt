-- ===== src/Transfer/Stages/Waits.antt =====
-- What the wait for a safe block and the deposit have done when they pass.
use rainbow_bridge.Prelude.{
  ℕ, zero, suc, ◌*◌, ◌≡◌, sym, ap, ◌∙◌, String, Bool, true, false, map, Option, none, some, [], ◌∷◌,
  ◌++◌,
}
use rainbow_bridge.Relay.Near2Eth.Rules.{Said}
use rainbow_bridge.Prelude.Js.{ok, ok_inj}
use rainbow_bridge.Prelude.Async.{lift-elim}
use rainbow_bridge.Client.Proofs.{ProofLocker, locker_of}
use rainbow_bridge.Transfer.{
  FoundProof, SafeProof, block_safe, sees_safe, deposits, passed, Transfer, ◌>>=◌,
}
use rainbow_bridge.Transfer.Passing.{bind-passed, trying-passed, asks-passed, asks-bind}
use rainbow_bridge.Transfer.Stages.{
  Setting, Doing, note, or_sleep, owner_of, wait_loop, wait_block_safe, try_deposit, asks_deposit,
  deposit,
}
use rainbow_bridge.Transfer.Stages.Each.{Moved, record-passed}

module _ {W TxReceipt Block Receipt Log Tree PathNode D : Type 0}
    (g : Setting W TxReceipt Block Receipt Log Tree PathNode D) (fuel : ℕ) where
  abbrev State : Type 0
  State = Transfer W Block Receipt Log PathNode

  -- The wait ends with the answer that the block is safe.
  abbrev Seen : ℕ → State → State → Type 0
  Seen number s t =
      Moved g fuel s (sees_safe number) s.log t × Said (g.services.block_hash_safe number) true

  after_answer :
      (n number : ℕ) (is_safe : Bool) (s s' t : State)
      → ((s' t : State) → wait_loop g fuel n number s' ≡ (passed tt, t) → Seen number s' t)
      → s'.log ≡ s.log
      → s'.acts ≡ s.acts
      → Said (g.services.block_hash_safe number) is_safe
      → or_sleep g fuel (wait_loop g fuel n number) number is_safe s' ≡ (passed tt, t)
      → Seen number s t
  after_answer n number true s s' t later log acts said k =
      let state = ap (λ p. p.1) k in
      (
        record {
          new_log = sym (ap (λ u. u.log) state) ∙ log;
          new_acts = sym (ap (λ u. u.acts) state) ∙ ap (λ done. done ++ sees_safe number ∷ []) acts;
        },
        said,
      )
  after_answer n number false s s' t later log acts said k =
      let (moved, seen) = later _ t k in
      (
        record {
          new_log = moved.new_log ∙ log;
          new_acts = moved.new_acts ∙ ap (λ done. done ++ sees_safe number ∷ []) acts;
        },
        seen,
      )

  loop-passed :
      (n number : ℕ) (s t : State) → wait_loop g fuel n number s ≡ (passed tt, t) → Seen number s t
  unfolding wait_loop
  loop-passed zero number s t h = cc
  loop-passed (suc n) number s t h =
      let (last, s1, said1, log1, acts1, h1) = asks-bind g.services.last_block_number _ s t tt h in
      let (is_safe, s2, said2, log2, acts2, h2) =
        asks-bind (g.services.block_hash_safe number) _ s1 t tt h1 in
      after_answer n number is_safe s s2 t (loop-passed n number) (log2 ∙ log1) (acts2 ∙ acts1)
        said2 h2

  owner-passed :
      (o : Option String) (s t : State) (id : String)
      → owner_of g fuel o s ≡ (passed id, t)
      → (o ≡ some id) × (s ≡ t)
  owner-passed none s t id h = cc
  owner-passed (some other) s t id h = let same : other ≡ id = cc in (ap some same, ap (λ p. p.1) h)

  -- What `waitBlockSafe` records for a proof: its parts, and the receiver.
  pub record SafeFor (f : FoundProof Block Receipt Log PathNode) (safe : SafeProof) : Type 0 where
    pub place : safe.proof_locker.log_index ≡ f.tx_log_index
    pub log_data : g.libraries.serialize_log f.log ≡ ok safe.proof_locker.log_entry_data
    pub receipt_number : safe.proof_locker.receipt_index ≡ f.proof.tx_index
    pub receipt_data : g.libraries.serialize_receipt f.receipt ≡ ok safe.proof_locker.receipt_data
    pub header : safe.proof_locker.header_data ≡ f.proof.header_rlp
    pub nodes : safe.proof_locker.proof ≡ map g.libraries.rlp_encode f.proof.receipt_proof
    pub owner : f.locked.account_id ≡ some safe.new_owner_id

  locker-SafeFor :
      (f : FoundProof Block Receipt Log PathNode) (locker : ProofLocker) (id : String) (w : W)
      → (locker_of g.web3 g.libraries g.eth_node g.times g.sleep g.delay g.wait f.receipt f.proof
          f.tx_log_index f.log w).0
        ≡ ok locker
      → f.locked.account_id ≡ some id
      → SafeFor f (record { proof_locker = locker; new_owner_id = id })
  unfolding locker_of
  locker-SafeFor f locker id w h named =
      lift-elim (g.libraries.serialize_log f.log) _ w locker h λ log_data e1 h1.
        lift-elim (g.libraries.serialize_receipt f.receipt) _ w locker h1 λ receipt_data e2 h2.
          let built = ok_inj _ locker h2 in
          record {
            place = sym (ap (λ p. p.log_index) built);
            log_data = e1 ∙ ap ok (ap (λ p. p.log_entry_data) built);
            receipt_number = sym (ap (λ p. p.receipt_index) built);
            receipt_data = e2 ∙ ap ok (ap (λ p. p.receipt_data) built);
            header = sym (ap (λ p. p.header_data) built);
            nodes = sym (ap (λ p. p.proof) built);
            owner = named;
          }

  pub wait-passed :
      (f : FoundProof Block Receipt Log PathNode) (s t : State)
      → wait_block_safe g fuel f s ≡ (passed tt, t)
      → (safe : SafeProof) × SafeFor f safe
        × Said (g.services.block_hash_safe (g.web3.number f.block)) true
        × Moved g fuel s (sees_safe (g.web3.number f.block)) (block_safe safe) t
  unfolding wait_block_safe
  wait-passed f s t h =
      let (locker, s1, said1, log1, acts1, h1) =
        asks-bind
          (locker_of g.web3 g.libraries g.eth_node g.times g.sleep g.delay g.wait f.receipt f.proof
            f.tx_log_index f.log)
          _ s t tt h in
      let (owner, s2, e2, h2) = bind-passed (owner_of g fuel f.locked.account_id) _ s1 t tt h1 in
      let (named, same) = owner-passed f.locked.account_id s1 s2 owner e2 in
      let (u, s3, e3, h3) =
        bind-passed (wait_loop g fuel fuel (g.web3.number f.block)) _ s2 t tt h2 in
      let (moved, seen) = loop-passed fuel (g.web3.number f.block) s2 s3 e3 in
      let (new_log, new_acts) = record-passed g fuel _ s3 t h3 in
      let before : s2.acts ≡ s.acts = sym (ap (λ u. u.acts) same) ∙ acts1 in
      (
        _,
        locker-SafeFor f locker owner said1.0 said1.1 named,
        seen,
        record {
          new_log = new_log;
          new_acts =
              new_acts
              ∙ moved.new_acts
              ∙ ap (λ done. done ++ sees_safe (g.web3.number f.block) ∷ []) before;
        },
      )

  -- The factory has taken the proof, with the gas and the tokens of the code.
  abbrev pub Deposited : SafeProof → Type 0
  Deposited safe =
      Said (g.services.deposit safe.proof_locker 300_000_000_000_000 60_000_000_000_000_000_000_000)
        tt

  pub deposit-passed :
      (safe : SafeProof) (s t : State)
      → deposit g fuel safe s ≡ (passed tt, t)
      → (t.acts ≡ s.acts ++ deposits safe.proof_locker ∷ []) × Deposited safe
  unfolding deposit
  deposit-passed safe s t h =
      let (old, s1, said1, log1, acts1, h1) =
        asks-bind (g.services.ft_balance_of safe.new_owner_id) _ s t tt h in
      let (u, s2, e2, h2) = bind-passed (try_deposit g fuel safe) _ s1 t tt h1 in
      let body : Doing g fuel Unit =
        note g fuel (deposits safe.proof_locker) >>= λ _. asks_deposit g fuel safe in
      let (v, s3, e3, h3) =
        bind-passed (note g fuel (deposits safe.proof_locker)) (λ _. asks_deposit g fuel safe) s1 s2
          tt (trying-passed body 1 s1 s2 tt e2) in
      let (said4, log4, acts4) =
        asks-passed
          (g.services.deposit safe.proof_locker 300_000_000_000_000
            (100_000_000_000_000_000_000 * 600))
          s3 s2 tt h3 in
      let (new, s5, said5, log5, acts5, h5) =
        asks-bind (g.services.ft_balance_of safe.new_owner_id) _ s2 t tt h2 in
      let noted = ap (λ p. p.1) e3 in
      (
        sym (ap (λ p. p.1.acts) h5)
            ∙ acts5
            ∙ acts4
            ∙ sym (ap (λ u. u.acts) noted)
            ∙ ap (λ done. done ++ deposits safe.proof_locker ∷ []) acts1,
        (s3.world, said4),
      )
