-- ===== src/Accounts.antt =====
-- utils/helpers.js: the creation and the checks of accounts on NEAR. near-api-js and the file of the
-- contract's code are parameters.
pub mod Creation
mod Tests
use rainbow_bridge.Prelude.{
  ℕ, zero, suc, ◌≡◌, refl, ap, ◌∙◌, String, Bool, true, false, Option, none, some, List, [], ◌∷◌,
  str_eq, ◌||◌, if◌then◌else◌,
}
use rainbow_bridge.Prelude.Js.{JsError, Result, ok, err, includes}
use rainbow_bridge.Prelude.Async.{Async, pure, throw, catch, ◌>>=◌}

-- The calls for one account. `create` is `createAccount` of the master account, `deploy` reads the
-- code and deploys it, and `error_type` is the `type` of an error of near-api-js.
pub record Account (W : Type 0) : Type 0 where
  pub fetch_code_hash : Async W String
  pub create : Async W (Unit {0})
  pub deploy : Async W (Unit {0})
  pub error_type : JsError → Option String
  pub key_of_store : Async W String
  pub get_access_keys : Async W (List String)

-- What `getAccountStatus` returns; for an account without code it is `undefined`, since
-- `accountStatus` has no `EMPTY_HASH`.
pub data AccountStatus : Type 0 where
  account_does_not_exist undefined_status with_contract : AccountStatus

abbrev pub empty_hash : String
empty_hash = "11111111111111111111111111111111"

-- It returns, or leaves the process.
pub data Ending : Type 0 where
  returned exited : Ending

abbrev pub has_type : Option String → String → Bool
has_type none name = false
has_type (some t) name = str_eq t name

unfoldable pub has_key : List String → String → Bool
has_key [] key = false
has_key (k ∷ keys) key = str_eq k key || has_key keys key

module _ {W : Type 0} (account : Account W) where
  unfoldable pub get_account_status : W → AccountStatus × W
  get_account_status w = elim (account.fetch_code_hash w).0 [
    | err e ↦ (account_does_not_exist, (account.fetch_code_hash w).1)
    | ok hash ↦ elim (str_eq hash empty_hash) [
      | true ↦ (undefined_status, (account.fetch_code_hash w).1)
      | false ↦ (with_contract, (account.fetch_code_hash w).1)
    ]
  ]

  -- The first loop: whether the account was created.
  unfoldable pub create_loop : ℕ → W → Bool × W
  create_loop zero w = (false, w)
  create_loop (suc retries) w = elim (account.create w).0 [
    | ok u ↦ (true, (account.create w).1)
    | err e ↦ elim (has_type (account.error_type e) "AccountAlreadyExists") [
      | true ↦ (true, (account.create w).1)
      | false ↦ create_loop retries (account.create w).1
    ]
  ]

  -- The second loop: whether the code was deployed. Only nonce errors are tried again.
  unfoldable pub deploy_loop : ℕ → W → Bool × W
  deploy_loop zero w = (false, w)
  deploy_loop (suc retries) w = elim (account.deploy w).0 [
    | ok u ↦ (true, (account.deploy w).1)
    | err e ↦ elim (includes e.message "Transaction nonce") [
      | true ↦ deploy_loop retries (account.deploy w).1
      | false ↦ (false, (account.deploy w).1)
    ]
  ]

  abbrev ending_of : Bool × W → Ending × W
  ending_of (true, w) = (returned, w)
  ending_of (false, w) = (exited, w)

  abbrev deploy_after : Bool × W → Ending × W
  deploy_after (true, w) = ending_of (deploy_loop 10 w)
  deploy_after (false, w) = (exited, w)

  -- What follows the status.
  unfoldable pub create_and_deploy : AccountStatus → W → Ending × W
  create_and_deploy account_does_not_exist w = deploy_after (create_loop 10 w)
  create_and_deploy undefined_status w = ending_of (deploy_loop 10 w)
  create_and_deploy with_contract w = (returned, w)

  unfoldable pub maybe_create_account : W → Ending × W
  maybe_create_account w = let (status, w') = get_account_status w in create_and_deploy status w'

  unfoldable pub account_exists : Async W Bool
  account_exists w = elim (account.fetch_code_hash w).0 [
    | ok hash ↦ (ok true, (account.fetch_code_hash w).1)
    | err e ↦ (ok false, (account.fetch_code_hash w).1)
  ]

  unfoldable pub account_has_the_key : Async W Bool
  account_has_the_key = do
    key ← account.key_of_store
    keys ← account.get_access_keys
    pure (has_key keys key)

  unfoldable pub verify_account : Async W Ending
  verify_account = do
    exists ← account_exists
    if exists
        then (do has ← account_has_the_key; pure (if has then returned else exited))
        else pure exited

  unfoldable pub verify_account_gently : Async W Bool
  verify_account_gently = do
    exists ← account_exists
    if exists
        then (do has ← account_has_the_key; pure (if has then true else false))
        else pure false
