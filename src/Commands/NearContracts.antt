-- ===== src/Commands/NearContracts.antt =====
-- cli/init/near-contracts.js: the accounts and the contracts of the bridge on NEAR, from the parts in
-- Accounts and Client. near-api-js is a parameter; an account stands for its id, key, balance and
-- contract.
pub mod Composed
use rainbow_bridge.Prelude.{String, Bool, Option, none, some}
use rainbow_bridge.Prelude.Js.{Result, ok, err}
use rainbow_bridge.Prelude.Async.{Async, pure, lift, ◌>>=◌, ◌>>◌}
use rainbow_bridge.Accounts.{Account, Ending, verify_account, maybe_create_account}
use rainbow_bridge.Client.Setup.{
  Setup, Boot, done, exited, maybe_initialize, prover_maybe_initialize,
}
use rainbow_bridge.Commands.Status.{given}
use rainbow_bridge.Commands.EthContracts.{Outcome, returned, exited as left}

pub record Args : Type 0 where
  pub master_account : String
  pub master_sk : String
  pub client_account : String
  pub client_sk : Option String
  pub prover_account : String
  pub prover_sk : Option String

pub record Near (W EthBlock : Type 0) : Type 0 where
  -- `KeyPair.fromString(sk).getPublicKey()`.
  pub public_key : String → Result String
  pub set_key : String → String → Async W (Unit {0})
  pub connect : Async W (Unit {0})
  pub master : Account W
  -- The account with this id and, if it is created, this public key.
  pub account : String → String → Account W
  -- `EthOnNearClientContract` and `EthOnNearProverContract` for an account.
  pub client : String → Setup W EthBlock
  pub prover_access_key_init : String → Async W (Unit {0})
  pub prover_init : String → String → Async W (Unit {0})
  pub destroy : W → W

-- The key, or the master's if it is missing.
unfoldable pub key_or_master : Option String → String → String
key_or_master sk master_sk = elim (given sk) [ none ↦ master_sk | some k ↦ k ]

-- `maybeCreateAccount` as an action.
abbrev pub create_account : {W : Type 0} → Account W → Async W Ending
create_account account w = let (ending, w') = maybe_create_account account w in (ok ending, w')

module _ {W A : Type 0} where
  -- What follows a call that may leave the process.
  abbrev pub if_returned : Ending → Async W (Outcome A) → Async W (Outcome A)
  if_returned Ending.returned m = m
  if_returned Ending.exited m = pure left

  abbrev pub if_done : Boot → Async W (Outcome A) → Async W (Outcome A)
  if_done done m = m
  if_done exited m = pure left

module _ {W EthBlock : Type 0} (near : Near W EthBlock) (args : Args) where
  -- The two contracts, and the keys that the command returns.
  unfoldable pub initialize_contracts : String → String → Async W (Outcome (String × String))
  initialize_contracts client_sk prover_sk = do
    booted ← maybe_initialize (near.client args.client_account)
    if_done booted (do
      prover_maybe_initialize (near.prover_access_key_init args.prover_account)
          (near.prover_init args.prover_account args.client_account)
      λ w. (ok (returned (client_sk, prover_sk)), near.destroy w))

  unfoldable pub verify_then :
      Account W → Async W (Outcome (String × String)) → Async W (Outcome (String × String))
  verify_then account m = do verified ← verify_account account; if_returned verified m

  -- An account that is created if need be and then verified.
  unfoldable pub ensure_account :
      Account W → Async W (Outcome (String × String)) → Async W (Outcome (String × String))
  ensure_account account m = do
    created ← create_account account
    if_returned created (verify_then account m)

  unfoldable pub set_keys : String → String → Async W (Unit {0})
  set_keys client_sk prover_sk = do
    near.set_key args.master_account args.master_sk
    near.set_key args.client_account client_sk
    near.set_key args.prover_account prover_sk
    near.connect

  unfoldable pub init_near_contracts : Async W (Outcome (String × String))
  init_near_contracts = do
    client_pk ← lift (near.public_key (key_or_master args.client_sk args.master_sk))
    prover_pk ← lift (near.public_key (key_or_master args.prover_sk args.master_sk))
    set_keys (key_or_master args.client_sk args.master_sk)
        (key_or_master args.prover_sk args.master_sk)
    verify_then near.master (
        ensure_account (near.account args.client_account client_pk) (
          ensure_account (near.account args.prover_account prover_pk) (
            initialize_contracts (key_or_master args.client_sk args.master_sk)
              (key_or_master args.prover_sk args.master_sk))))
