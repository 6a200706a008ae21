-- ===== src/Transfer/Stages.antt =====
-- The stages of the transfer, and `execute`, which goes on where the log says. The objects of web3 and
-- near-api-js that it builds before are in the setting.
mod Each
pub mod Exits
mod Leaves
pub mod Resumes
mod Waits
use rainbow_bridge.Prelude.{
  ℕ, zero, suc, ◌*◌, ◌≡◌, String, Bool, true, false, Option, none, some, List, [], ◌∷◌, ◌++◌,
}
use rainbow_bridge.Prelude.Js.{JsError, Result, ok, err, type_error}
use rainbow_bridge.Prelude.Async.{Async}
use rainbow_bridge.Robust.Calls.{Node}
use rainbow_bridge.Robust.Contract.{Options, Tx, Eth, call_contract}
use rainbow_bridge.Accounts.{Account, Ending, returned, exited, verify_account}
use rainbow_bridge.Client.Proofs.{
  Web3Data, Libraries, ExtractedProof, extract_receipt, extract_block, build_trie, extract_proof,
  find_log, locker_of,
}
use rainbow_bridge.Transfer.{
  Locked, FoundProof, SafeProof, TransferLog, not_started, approved, locked, proof_found,
  block_safe, TransferAct, approves, locks, sees_safe, deposits, Stage, passed, rejected, left_with,
  unfinished, Argument, text, big, TransferArgs, Transfer, Services, Run, ◌>>=◌, ◌>>◌, pass, leave,
  trying, asks, stage_of_outcome,
}

-- What `execute` is given and sets up.
pub record Setting (W TxReceipt Block Receipt Log Tree PathNode D : Type 0) : Type 0 where
  pub services : Services W TxReceipt Block Receipt Log PathNode
  pub eth : Eth W TxReceipt
  pub web3 : Web3Data Block Receipt Log
  pub libraries : Libraries W Block Receipt Log Tree PathNode
  pub eth_node : Node W Block Receipt
  pub account : Account W
  pub times : D → D → D
  pub sleep : D → W → W
  pub delay : D
  pub wait : D
  pub args : TransferArgs

module _ {W TxReceipt Block Receipt Log Tree PathNode D : Type 0}
    (g : Setting W TxReceipt Block Receipt Log Tree PathNode D) (fuel : ℕ) where
  abbrev pub Doing : Type 0 → Type 0
  Doing A = Run W Block Receipt Log PathNode A

  abbrev put_log : TransferLog Block Receipt Log PathNode → Doing Unit
  put_log log s = (passed tt, record s { log = log })

  abbrev pub note : TransferAct → Doing Unit
  note act s = (passed tt, record s { acts = s.acts ++ act ∷ [] })

  unfoldable pub record_transfer_log : TransferLog Block Receipt Log PathNode → Doing Unit
  record_transfer_log log = do asks (g.services.write_file log); put_log log

  -- The `catch` gives an empty log.
  abbrev pub log_or_empty :
      Result (Unit {0})
      → TransferLog Block Receipt Log PathNode
      → TransferLog Block Receipt Log PathNode
  log_or_empty (ok u) log = log
  log_or_empty (err e) log = not_started

  unfoldable pub load_transfer_log : Doing (TransferLog Block Receipt Log PathNode)
  load_transfer_log s =
      let (r, w) = g.services.read_file s.world in
      (passed (log_or_empty r s.log), record s { world = w })

  abbrev pub options : Options
  options = record {
    from = g.args.eth_sender_account;
    handle_revert = false;
    gas = 5_000_000;
    gas_price = none;
  }

  -- A call of `callContract`, and the transactions that it sent.
  unfoldable pub calls : (List Tx → TransferAct) → String → String → List Argument → Doing TxReceipt
  calls act address method arguments s =
      let (outcome, sending) =
        call_contract g.eth options address (g.services.encode_abi method arguments) fuel s.world in
      (
        stage_of_outcome outcome,
        record s { world = sending.world; acts = s.acts ++ act sending.sent ∷ [] },
      )

  abbrev pub call_approve : Doing TxReceipt
  call_approve =
      calls approves g.args.eth_erc20_address "approve"
        (text g.args.eth_locker_address ∷ big g.args.amount ∷ [])

  unfoldable pub approve : Doing Unit
  approve = trying (do transaction ← call_approve; record_transfer_log approved) (λ e. leave 1)

  abbrev pub call_lock : Doing TxReceipt
  call_lock =
      calls locks g.args.eth_locker_address "lockToken"
        (text g.args.eth_erc20_address ∷ big g.args.amount ∷ text g.args.near_receiver_account ∷ [])

  abbrev pub record_locked : TxReceipt → Doing Unit
  record_locked transaction = record_transfer_log (locked (g.services.locked_event transaction))

  unfoldable pub lock : Doing Unit
  lock = trying (do transaction ← call_lock; record_locked transaction) (λ e. leave 1)

  abbrev pub record_found :
      Locked → Receipt → Block → ExtractedProof PathNode → Option (ℕ × Log) → Doing Unit
  record_found event receipt block extracted none = leave 1
  record_found event receipt block extracted (some (i, log)) = record_transfer_log (
      proof_found (record {
        locked = event;
        proof = extracted;
        log = log;
        tx_log_index = i;
        receipt = receipt;
        block = block;
      }))

  -- An event that is missing throws when it is read.
  unfoldable pub find_proof : Option Locked → Doing Unit
  find_proof none s = (rejected (type_error "Cannot read property of undefined"), s)
  find_proof (some event) s =
      (do
        receipt ← asks (
            extract_receipt g.web3 g.libraries g.eth_node g.times g.sleep g.delay g.wait
              event.event.transaction_hash)
        block ← asks (
            extract_block g.web3 g.libraries g.eth_node g.times g.sleep g.delay g.wait
              (g.web3.block_number receipt))
        tree ← asks (build_trie g.web3 g.libraries g.eth_node g.times g.sleep g.delay g.wait block)
        extracted ← asks (
            extract_proof g.web3 g.libraries g.eth_node g.times g.sleep g.delay g.wait block tree
              (g.web3.transaction_index receipt))
        record_found event receipt block extracted (
            find_log g.web3 g.libraries g.eth_node g.times g.sleep g.delay g.wait
              (g.web3.logs receipt) event.event.log_index 0))
        s

  abbrev pub or_sleep : Doing Unit → ℕ → Bool → Doing Unit
  or_sleep again number true s = note (sees_safe number) s
  or_sleep again number false s = again (record s { world = g.services.sleep_ten_seconds s.world })

  -- The loop until the client has the block and takes it for safe.
  unfoldable pub wait_loop : ℕ → ℕ → Doing Unit
  wait_loop zero number s = (unfinished, s)
  wait_loop (suc n) number s =
      (do
        last ← asks g.services.last_block_number
        is_safe ← asks (g.services.block_hash_safe number)
        or_sleep (wait_loop n number) number is_safe)
        s

  abbrev pub owner_of : Option String → Doing String
  owner_of none s = (rejected (type_error "Cannot read property of undefined"), s)
  owner_of (some id) s = (passed id, s)

  unfoldable pub wait_block_safe : FoundProof Block Receipt Log PathNode → Doing Unit
  wait_block_safe found = do
    locker ← asks (
        locker_of g.web3 g.libraries g.eth_node g.times g.sleep g.delay g.wait found.receipt
          found.proof found.tx_log_index found.log)
    owner ← owner_of found.locked.account_id
    wait_loop fuel (g.web3.number found.block)
    record_transfer_log (block_safe (record { proof_locker = locker; new_owner_id = owner }))

  abbrev pub asks_deposit : SafeProof → Doing Unit
  asks_deposit safe =
      asks (
        g.services.deposit safe.proof_locker 300_000_000_000_000
          (100_000_000_000_000_000_000 * 600))

  abbrev pub try_deposit : SafeProof → Doing Unit
  try_deposit safe = trying (do note (deposits safe.proof_locker); asks_deposit safe) (λ e. leave 1)

  unfoldable pub deposit : SafeProof → Doing Unit
  deposit safe = do
    old_balance ← asks (g.services.ft_balance_of safe.new_owner_id)
    try_deposit safe
    new_balance ← asks (g.services.ft_balance_of safe.new_owner_id)
    pass tt

  unfoldable pub approve_stage :
      TransferLog Block Receipt Log PathNode → Doing (TransferLog Block Receipt Log PathNode)
  approve_stage not_started = do
    balance ← asks (g.services.erc20_balance_of g.args.eth_sender_account)
    approve
    load_transfer_log
  approve_stage log = pass log

  unfoldable pub lock_stage :
      TransferLog Block Receipt Log PathNode → Doing (TransferLog Block Receipt Log PathNode)
  lock_stage approved = do lock; load_transfer_log
  lock_stage log = pass log

  unfoldable pub find_stage :
      TransferLog Block Receipt Log PathNode → Doing (TransferLog Block Receipt Log PathNode)
  find_stage (locked event) = do find_proof event; load_transfer_log
  find_stage log = pass log

  unfoldable pub safe_stage :
      TransferLog Block Receipt Log PathNode → Doing (TransferLog Block Receipt Log PathNode)
  safe_stage (proof_found found) = do wait_block_safe found; load_transfer_log
  safe_stage log = pass log

  unfoldable pub deposit_stage : TransferLog Block Receipt Log PathNode → Doing Unit
  deposit_stage (block_safe safe) = deposit safe
  deposit_stage log = pass tt

  -- The tests of `finished`, one after another.
  unfoldable pub stages : TransferLog Block Receipt Log PathNode → Doing Unit
  stages log = do
    log1 ← approve_stage log
    log2 ← lock_stage log1
    log3 ← find_stage log2
    log4 ← safe_stage log3
    deposit_stage log4

  abbrev pub unless_exited : Ending → Doing Unit
  unless_exited returned = pass tt
  unless_exited exited = leave 1

  unfoldable pub execute : Doing Unit
  execute = do
    log ← load_transfer_log
    ending ← asks (verify_account g.account)
    unless_exited ending
    asks g.services.factory_access_key_init
    stages log
    trying (asks g.libraries.close) (λ e. pass tt)
    leave 0
