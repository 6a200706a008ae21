-- ===== src/Commands/NearContracts/Composed.antt =====
-- What it means that the set-up of the NEAR contracts returns.
use rainbow_bridge.Prelude.{◌≡◌, ◌⊎◌, String, true}
use rainbow_bridge.Prelude.Js.{JsError, ok, err, includes}
use rainbow_bridge.Prelude.Async.{Async}
use rainbow_bridge.Accounts.{Account, maybe_create_account}
use rainbow_bridge.Accounts.Creation.{ReturnedIn, VerifiedIn}
use rainbow_bridge.Relay.Near2Eth.Rules.{Said}
use rainbow_bridge.Commands.EthContracts.{Outcome, returned}
use rainbow_bridge.Commands.NearContracts.{Args, Near}

-- The account exists and has the key of the store.
abbrev pub Verified : {W : Type 0} → Account W → Type 0
Verified {W} account = (w : W) × VerifiedIn account w

module _ {W : Type 0} (account : Account W) where
  -- The account was there with a contract, or came to be, and is verified after that.
  abbrev pub Ensured : Type 0
  Ensured = (w : W) × ReturnedIn account w × VerifiedIn account (maybe_create_account account w).1

-- The contract was initialized, or said that it was before.
abbrev pub Initialized : {W : Type 0} → Async W (Unit {0}) → Type 0
Initialized {W} init =
    Said init tt
    ⊎ ((e : JsError) × (w : W) × ((init w).0 ≡ err e)
        × (includes e.message "The contract is already initialized" ≡ true))

module _ {W EthBlock : Type 0} (near : Near W EthBlock) (args : Args) where
  -- The client contract gave the known roots, and the prover contract is initialized.
  pub record Contracts : Type 0 where
    pub client_key : Said (near.client args.client_account).find_access_key true
    pub first_root :
        Said
          ((near.client args.client_account).dag_merkle_root 0)
          "0x55b891e842e58f58956a847cbbf67821"
    pub last_root :
        Said
          ((near.client args.client_account).dag_merkle_root 511)
          "0x7a9010568819de327a24fa495029adcb"
    pub prover_key : Said (near.prover_access_key_init args.prover_account) tt
    pub prover : Initialized (near.prover_init args.prover_account args.client_account)

  -- What follows returns.
  abbrev Follows : Async W (Outcome (String × String)) → String × String → Type 0
  Follows m keys = (w : W) × ((m w).0 ≡ ok (returned keys))
