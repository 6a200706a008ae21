-- ===== src/Transfer/Stages/Leaves.antt =====
-- The stages leave the process with code 1 only.
use rainbow_bridge.Prelude.{
  ℕ, zero, suc, ◌*◌, ◌≡◌, String, Bool, true, false, Option, none, some, List,
}
use rainbow_bridge.Prelude.Js.{ok, err}
use rainbow_bridge.Robust.Contract.{Tx, Outcome, ended, running}
use rainbow_bridge.Client.Proofs.{
  ExtractedProof, extract_receipt, extract_block, build_trie, extract_proof, locker_of,
}
use rainbow_bridge.Transfer.{
  Locked, FoundProof, SafeProof, TransferLog, not_started, approved, locked, proof_found,
  block_safe, TransferAct, deposits, left_with, Argument, Transfer, ◌>>=◌, ◌>>◌, asks,
  stage_of_outcome,
}
use rainbow_bridge.Transfer.Leaving.{
  LeavesWithOne, bind-LeavesWithOne, then-LeavesWithOne, trying-LeavesWithOne, asks-LeavesWithOne,
  asking-LeavesWithOne,
}
use rainbow_bridge.Transfer.Stages.{
  Setting, Doing, note, record_transfer_log, load_transfer_log, calls, call_approve, approve,
  call_lock, lock, record_found, find_proof, or_sleep, wait_loop, owner_of, wait_block_safe,
  asks_deposit, try_deposit, deposit, approve_stage, lock_stage, find_stage, safe_stage,
  deposit_stage, stages,
}

module _ {W TxReceipt Block Receipt Log Tree PathNode D : Type 0}
    (g : Setting W TxReceipt Block Receipt Log Tree PathNode D) (fuel : ℕ) where
  abbrev State : Type 0
  State = Transfer W Block Receipt Log PathNode

  record_leaves :
      (log : TransferLog Block Receipt Log PathNode)
      → LeavesWithOne (record_transfer_log g fuel log)
  unfolding record_transfer_log
  record_leaves log = asking-LeavesWithOne (g.services.write_file log) _ (λ u s code h. cc)

  load_leaves : LeavesWithOne (load_transfer_log g fuel)
  unfolding load_transfer_log
  load_leaves s code h = cc

  calls_leaves :
      (act : List Tx → TransferAct) (address method : String) (arguments : List Argument)
      → LeavesWithOne (calls g fuel act address method arguments)
  unfolding calls
  calls_leaves act address method arguments s code h = go _ h
    where
      go : (o : Outcome TxReceipt) → stage_of_outcome o ≡ left_with code → code ≡ 1
      go (ended (ok r)) k = cc
      go (ended (err e)) k = cc
      go running k = cc

  approve_leaves : LeavesWithOne (approve g fuel)
  unfolding approve
  approve_leaves = trying-LeavesWithOne _ (
      bind-LeavesWithOne (call_approve g fuel) _ (calls_leaves _ _ _ _)
        (λ r. record_leaves approved))

  lock_leaves : LeavesWithOne (lock g fuel)
  unfolding lock
  lock_leaves =
      trying-LeavesWithOne _
        (bind-LeavesWithOne (call_lock g fuel) _ (calls_leaves _ _ _ _) (λ r. record_leaves _))

  found_leaves :
      (ev : Locked) (receipt : Receipt) (block : Block) (proof : ExtractedProof PathNode)
      (o : Option (ℕ × Log))
      → LeavesWithOne (record_found g fuel ev receipt block proof o)
  found_leaves ev receipt block proof none = λ s code h. cc
  found_leaves ev receipt block proof (some (i, log)) = record_leaves _

  find_leaves : (o : Option Locked) → LeavesWithOne (find_proof g fuel o)
  unfolding find_proof
  find_leaves none = λ s code h. cc
  find_leaves (some ev) =
      asking-LeavesWithOne
        (extract_receipt g.web3 g.libraries g.eth_node g.times g.sleep g.delay g.wait
          ev.event.transaction_hash)
        _
        λ receipt.
          asking-LeavesWithOne
            (extract_block g.web3 g.libraries g.eth_node g.times g.sleep g.delay g.wait
              (g.web3.block_number receipt))
            _
            λ block.
              asking-LeavesWithOne
                (build_trie g.web3 g.libraries g.eth_node g.times g.sleep g.delay g.wait block) _
                λ tree.
                  asking-LeavesWithOne
                    (extract_proof g.web3 g.libraries g.eth_node g.times g.sleep g.delay g.wait
                      block tree (g.web3.transaction_index receipt))
                    _ λ proof. found_leaves ev receipt block proof _

  or_sleep_leaves :
      (again : Doing g fuel Unit) (number : ℕ) (b : Bool)
      → LeavesWithOne again
      → LeavesWithOne (or_sleep g fuel again number b)
  or_sleep_leaves again number true calm s code h = cc
  or_sleep_leaves again number false calm s code h = calm _ code h

  loop_leaves : (n number : ℕ) → LeavesWithOne (wait_loop g fuel n number)
  unfolding wait_loop
  loop_leaves zero number = λ s code h. cc
  loop_leaves (suc n) number =
      let again : Doing g fuel Unit = wait_loop g fuel n number in
      let ask : Doing g fuel Unit =
        asks (g.services.block_hash_safe number) >>= or_sleep g fuel again number in
      asking-LeavesWithOne g.services.last_block_number (λ last. ask)
        λ last.
          asking-LeavesWithOne (g.services.block_hash_safe number) (or_sleep g fuel again number)
            λ is_safe. or_sleep_leaves again number is_safe (loop_leaves n number)

  owner_leaves : (o : Option String) → LeavesWithOne (owner_of g fuel o)
  owner_leaves none s code h = cc
  owner_leaves (some id) s code h = cc

  wait_leaves :
      (f : FoundProof Block Receipt Log PathNode) → LeavesWithOne (wait_block_safe g fuel f)
  unfolding wait_block_safe
  wait_leaves f =
      asking-LeavesWithOne
        (locker_of g.web3 g.libraries g.eth_node g.times g.sleep g.delay g.wait f.receipt f.proof
          f.tx_log_index f.log)
        _
        λ locker.
          bind-LeavesWithOne (owner_of g fuel f.locked.account_id) _ (owner_leaves _) λ owner.
            then-LeavesWithOne (wait_loop g fuel fuel (g.web3.number f.block)) _
              (loop_leaves fuel _) (record_leaves _)

  deposit_leaves : (safe : SafeProof) → LeavesWithOne (deposit g fuel safe)
  unfolding deposit
  deposit_leaves safe = asking-LeavesWithOne (g.services.ft_balance_of safe.new_owner_id) _ λ old.
      then-LeavesWithOne (try_deposit g fuel safe) _
        (trying-LeavesWithOne _ (
          then-LeavesWithOne (note g fuel (deposits safe.proof_locker)) (asks_deposit g fuel safe)
            (λ s code h. cc)
            (asks-LeavesWithOne (
              g.services.deposit safe.proof_locker 300_000_000_000_000
                (100_000_000_000_000_000_000 * 600)))))
        (asking-LeavesWithOne (g.services.ft_balance_of safe.new_owner_id) _ (λ new s code h. cc))

  run : (m : Doing g fuel Unit) → LeavesWithOne m → LeavesWithOne (m >> load_transfer_log g fuel)
  run m calm = then-LeavesWithOne m (load_transfer_log g fuel) calm load_leaves

  approve_stage_leaves :
      (log : TransferLog Block Receipt Log PathNode) → LeavesWithOne (approve_stage g fuel log)
  unfolding approve_stage
  approve_stage_leaves not_started =
      asking-LeavesWithOne (g.services.erc20_balance_of g.args.eth_sender_account) _
        λ balance. run (approve g fuel) approve_leaves
  approve_stage_leaves approved = λ s code h. cc
  approve_stage_leaves (locked o) = λ s code h. cc
  approve_stage_leaves (proof_found f) = λ s code h. cc
  approve_stage_leaves (block_safe safe) = λ s code h. cc

  lock_stage_leaves :
      (log : TransferLog Block Receipt Log PathNode) → LeavesWithOne (lock_stage g fuel log)
  unfolding lock_stage
  lock_stage_leaves approved = run (lock g fuel) lock_leaves
  lock_stage_leaves not_started = λ s code h. cc
  lock_stage_leaves (locked o) = λ s code h. cc
  lock_stage_leaves (proof_found f) = λ s code h. cc
  lock_stage_leaves (block_safe safe) = λ s code h. cc

  find_stage_leaves :
      (log : TransferLog Block Receipt Log PathNode) → LeavesWithOne (find_stage g fuel log)
  unfolding find_stage
  find_stage_leaves (locked o) = run (find_proof g fuel o) (find_leaves o)
  find_stage_leaves not_started = λ s code h. cc
  find_stage_leaves approved = λ s code h. cc
  find_stage_leaves (proof_found f) = λ s code h. cc
  find_stage_leaves (block_safe safe) = λ s code h. cc

  safe_stage_leaves :
      (log : TransferLog Block Receipt Log PathNode) → LeavesWithOne (safe_stage g fuel log)
  unfolding safe_stage
  safe_stage_leaves (proof_found f) = run (wait_block_safe g fuel f) (wait_leaves f)
  safe_stage_leaves not_started = λ s code h. cc
  safe_stage_leaves approved = λ s code h. cc
  safe_stage_leaves (locked o) = λ s code h. cc
  safe_stage_leaves (block_safe safe) = λ s code h. cc

  deposit_stage_leaves :
      (log : TransferLog Block Receipt Log PathNode) → LeavesWithOne (deposit_stage g fuel log)
  unfolding deposit_stage
  deposit_stage_leaves (block_safe safe) = deposit_leaves safe
  deposit_stage_leaves not_started = λ s code h. cc
  deposit_stage_leaves approved = λ s code h. cc
  deposit_stage_leaves (locked o) = λ s code h. cc
  deposit_stage_leaves (proof_found f) = λ s code h. cc

  pub stages_leave :
      (log : TransferLog Block Receipt Log PathNode) → LeavesWithOne (stages g fuel log)
  unfolding stages
  stages_leave log =
      bind-LeavesWithOne (approve_stage g fuel log) _ (approve_stage_leaves log) λ log1.
        bind-LeavesWithOne (lock_stage g fuel log1) _ (lock_stage_leaves log1) λ log2.
          bind-LeavesWithOne (find_stage g fuel log2) _ (find_stage_leaves log2) λ log3.
            bind-LeavesWithOne (safe_stage g fuel log3) (deposit_stage g fuel)
              (safe_stage_leaves log3) deposit_stage_leaves
