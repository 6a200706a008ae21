-- ===== src/Accounts/Tests.antt =====
-- The theorems about accounts, at an account that is new.
use rainbow_bridge.Prelude.{ℕ, zero, suc, ◌≡◌, refl, none, [], ◌∷◌}
use rainbow_bridge.Prelude.Js.{Result, ok, err, error}
use rainbow_bridge.Accounts.{
  Account, returned, get_account_status, create_loop, deploy_loop, create_and_deploy,
  maybe_create_account,
}
use rainbow_bridge.Accounts.Creation.{ReturnedIn, maybe_create_account-ReturnedIn}

-- The world counts the calls; the first call of each kind fails.
abbrev fails_first : ℕ → Result (Unit {0})
fails_first zero = err (error "timeout")
fails_first (suc n) = ok tt

abbrev account : Account ℕ
account = record {
  fetch_code_hash = λ w. (err (error "no account"), w);
  create = λ w. (fails_first w, suc w);
  deploy = λ w. (fails_first w, suc w);
  error_type = λ e. none;
  key_of_store = λ w. (ok "key", w);
  get_access_keys = λ w. (ok ("other" ∷ "key" ∷ []), w);
}

created : (maybe_create_account account 0).0 ≡ returned
unfolding maybe_create_account get_account_status create_and_deploy create_loop deploy_loop
created = refl

maybe_create_account-ReturnedIn_example : ReturnedIn account 0
maybe_create_account-ReturnedIn_example = maybe_create_account-ReturnedIn account 0 created
