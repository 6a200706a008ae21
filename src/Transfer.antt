-- ===== src/Transfer.antt =====
-- testing/transfer-eth-erc20/to-near.js: the transfer of an ERC20 token to NEAR in stages, each of which
-- records in a log that it is finished. The file system, web3, near-api-js and the contracts are
-- parameters. A log that can be read is taken to be as it was recorded; `parseBuffer` restores its
-- buffers.
pub mod Leaving
pub mod Passing
pub mod Stages
mod Tests
use rainbow_bridge.Prelude.{
  ℕ, zero, suc, ◌≡◌, String, Bool, true, false, Option, none, some, List, [], ◌∷◌, ◌++◌,
}
use rainbow_bridge.Prelude.Js.{JsError, Result, ok, err, type_error}
use rainbow_bridge.Prelude.Async.{Async}
use rainbow_bridge.Robust.Calls.{Node}
use rainbow_bridge.Robust.Contract.{Options, Tx, Eth, Outcome, ended, running, call_contract}
use rainbow_bridge.Robust.Contract.{State as Sending}
use rainbow_bridge.Accounts.{Account, Ending, returned, exited, verify_account}
use rainbow_bridge.Client.Proofs.{
  LockedEvent, Web3Data, Libraries, ExtractedProof, ProofLocker, extract_receipt, extract_block,
  build_trie, extract_proof, find_log, locker_of,
}

-- The event `Locked`; `account_id` is `none` where the event has no `returnValues`.
pub record Locked : Type 0 where
  pub event : LockedEvent
  pub account_id : Option String

-- What `findProof` records.
pub record FoundProof (Block Receipt Log PathNode : Type 0) : Type 0 where
  pub locked : Locked
  pub proof : ExtractedProof PathNode
  pub log : Log
  pub tx_log_index : ℕ
  pub receipt : Receipt
  pub block : Block

-- What `waitBlockSafe` records.
pub record SafeProof : Type 0 where
  pub proof_locker : ProofLocker
  pub new_owner_id : String

-- The log by what is `finished`: nothing, or no log is found; else that stage. The event is `none`
-- where the transaction's receipt has none.
pub data TransferLog (Block Receipt Log PathNode : Type 0) : Type 0 where
  not_started approved : TransferLog Block Receipt Log PathNode
  locked : Option Locked → TransferLog Block Receipt Log PathNode
  proof_found : FoundProof Block Receipt Log PathNode → TransferLog Block Receipt Log PathNode
  block_safe : SafeProof → TransferLog Block Receipt Log PathNode

-- What the transfer does to the chains, and the answer that it waits for.
pub data TransferAct : Type 0 where
  approves locks : List Tx → TransferAct
  sees_safe : ℕ → TransferAct
  deposits : ProofLocker → TransferAct

-- A call passes, is rejected, leaves the process with a code, or has run out of fuel.
pub data Stage (A : Type 0) : Type 0 where
  passed : A → Stage A
  rejected : JsError → Stage A
  left_with : ℕ → Stage A
  unfinished : Stage A

-- The arguments of a contract's method.
pub data Argument : Type 0 where
  text : String → Argument
  big : ℕ → Argument

pub record TransferArgs : Type 0 where
  pub amount : ℕ
  pub near_receiver_account : String
  pub eth_sender_account : String
  pub eth_erc20_address : String
  pub eth_locker_address : String

pub record Transfer (W Block Receipt Log PathNode : Type 0) : Type 0 where
  pub world : W
  pub log : TransferLog Block Receipt Log PathNode
  pub acts : List TransferAct

-- The calls of the chains and of the file system. `locked_event` reads `transaction.events.Locked`.
pub record Services (W TxReceipt Block Receipt Log PathNode : Type 0) : Type 0 where
  -- Whether the log can be read and parsed.
  pub read_file : Async W (Unit {0})
  pub write_file : TransferLog Block Receipt Log PathNode → Async W (Unit {0})
  pub encode_abi : String → List Argument → String
  pub locked_event : TxReceipt → Option Locked
  pub factory_access_key_init : Async W (Unit {0})
  pub erc20_balance_of : String → Async W ℕ
  pub last_block_number : Async W ℕ
  pub block_hash_safe : ℕ → Async W Bool
  pub ft_balance_of : String → Async W String
  pub deposit : ProofLocker → ℕ → ℕ → Async W (Unit {0})
  pub sleep_ten_seconds : W → W

module _ {A : Type 0} where
  abbrev pub stage_of_result : Result A → Stage A
  stage_of_result (ok a) = passed a
  stage_of_result (err e) = rejected e

  abbrev pub stage_of_outcome : Outcome A → Stage A
  stage_of_outcome (ended r) = stage_of_result r
  stage_of_outcome running = unfinished

-- An action of a transfer.
abbrev pub Run : Type 0 → Type 0 → Type 0 → Type 0 → Type 0 → Type 0 → Type 0
Run W Block Receipt Log PathNode A =
    Transfer W Block Receipt Log PathNode → Stage A × Transfer W Block Receipt Log PathNode

module _ {W Block Receipt Log PathNode A B : Type 0} where
  abbrev next_stage :
      Stage A → (A → Run W Block Receipt Log PathNode B) → Run W Block Receipt Log PathNode B
  next_stage (passed a) f s = f a s
  next_stage (rejected e) f s = (rejected e, s)
  next_stage (left_with code) f s = (left_with code, s)
  next_stage unfinished f s = (unfinished, s)

  infixl 5 ◌>>=◌ ◌>>◌
  abbrev pub ◌>>=◌ :
      Run W Block Receipt Log PathNode A
      → (A → Run W Block Receipt Log PathNode B)
      → Run W Block Receipt Log PathNode B
  ◌>>=◌ m f s = let (r, s') = m s in next_stage r f s'

  abbrev pub ◌>>◌ :
      Run W Block Receipt Log PathNode A
      → Run W Block Receipt Log PathNode B
      → Run W Block Receipt Log PathNode B
  m >> k = m >>= λ _. k

module _ {W Block Receipt Log PathNode A : Type 0} where
  abbrev pub pass : A → Run W Block Receipt Log PathNode A
  pass a s = (passed a, s)

  -- `process.exit`.
  abbrev pub leave : ℕ → Run W Block Receipt Log PathNode A
  leave code s = (left_with code, s)

  abbrev handled :
      Stage A → (JsError → Run W Block Receipt Log PathNode A) → Run W Block Receipt Log PathNode A
  handled (rejected e) handler s = handler e s
  handled r handler s = (r, s)

  -- `try`; leaving the process is not caught.
  abbrev pub trying :
      Run W Block Receipt Log PathNode A
      → (JsError → Run W Block Receipt Log PathNode A)
      → Run W Block Receipt Log PathNode A
  trying m handler s = let (r, s') = m s in handled r handler s'

  abbrev pub asks : Async W A → Run W Block Receipt Log PathNode A
  asks m s = let (r, w) = m s.world in (stage_of_result r, record s { world = w })
