-- ===== src/Accounts/Creation.antt =====
-- What it means that `maybeCreateAccount` and `verifyAccount` return.
use rainbow_bridge.Prelude.{
  ℕ, zero, suc, ◌≡◌, refl, ◌⊎◌, inl, inr, Bool, true, false, Bool-cases, ◌≢◌, String, List, [], ◌∷◌,
  ◌++◌, str_eq, eq_iff,
}
use rainbow_bridge.Prelude.Js.{JsError, Result, ok, err, includes}
use rainbow_bridge.Accounts.{
  Account, AccountStatus, empty_hash, has_key, account_exists, account_has_the_key,
  account_does_not_exist, undefined_status, with_contract, returned, has_type, get_account_status,
  create_loop, deploy_loop, ending_of, deploy_after, create_and_deploy, maybe_create_account,
  verify_account,
}

module _ {W : Type 0} (account : Account W) where
  -- A creation succeeded, or the account turned out to exist.
  abbrev pub Created : Type 0
  Created =
      (w : W) × (((account.create w).0 ≡ ok tt)
        ⊎ ((e : JsError) × ((account.create w).0 ≡ err e)
            × (has_type (account.error_type e) "AccountAlreadyExists" ≡ true)))

  abbrev pub Deployed : Type 0
  Deployed = (w : W) × ((account.deploy w).0 ≡ ok tt)

  create_loop-Created : (retries : ℕ) (w : W) → (create_loop account retries w).0 ≡ true → Created
  unfolding create_loop
  create_loop-Created zero w h = cc
  create_loop-Created (suc retries) w h =
      go (account.create w).0 refl (create_loop-Created retries (account.create w).1)
    where
      go :
          (r : Result (Unit {0}))
          → (account.create w).0 ≡ r
          → ((create_loop account retries (account.create w).1).0 ≡ true → Created)
          → Created
      go (ok u) q later = (w, inl q)
      go (err e) q later =
          elim (Bool-cases (has_type (account.error_type e) "AccountAlreadyExists")) [
            | inl there ↦ (w, inr (e, q, there))
            | inr absent ↦ later (rw absent at (rw (q, create_loop) at h))
          ]

  deploy_loop-Deployed : (retries : ℕ) (w : W) → (deploy_loop account retries w).0 ≡ true → Deployed
  unfolding deploy_loop
  deploy_loop-Deployed zero w h = cc
  deploy_loop-Deployed (suc retries) w h =
      go (account.deploy w).0 refl (deploy_loop-Deployed retries (account.deploy w).1)
    where
      go :
          (r : Result (Unit {0}))
          → (account.deploy w).0 ≡ r
          → ((deploy_loop account retries (account.deploy w).1).0 ≡ true → Deployed)
          → Deployed
      go (ok u) q later = (w, q)
      go (err e) q later = elim (Bool-cases (includes e.message "Transaction nonce")) [
        | inl again ↦ later (rw again at (rw (q, deploy_loop) at h))
        | inr final ↦ cc (rw final at (rw (q, deploy_loop) at h))
      ]

  -- What a return means in this world: the account has a contract, or it has none and one was deployed,
  -- or it could not be fetched, was created or turned out to exist, and a contract was deployed.
  pub data ReturnedIn (w : W) : Type 0 where
    had_contract :
        (hash : String)
        → (account.fetch_code_hash w).0 ≡ ok hash
        → hash ≢ "11111111111111111111111111111111"
        → ReturnedIn w
    was_empty :
        (account.fetch_code_hash w).0 ≡ ok "11111111111111111111111111111111"
        → Deployed
        → ReturnedIn w
    was_missing :
        (e : JsError) → (account.fetch_code_hash w).0 ≡ err e → Created → Deployed → ReturnedIn w

  abbrev ReturnedFor : AccountStatus → Type 0
  ReturnedFor account_does_not_exist = Created × Deployed
  ReturnedFor undefined_status = Deployed
  ReturnedFor with_contract = Unit

  ending_of-Deployed :
      (b : Bool) (w : W)
      → (b ≡ true → Deployed)
      → (ending_of account (b, w)).0 ≡ returned
      → Deployed
  ending_of-Deployed true w f h = f refl
  ending_of-Deployed false w f h = cc

  create_and_deploy-ReturnedFor :
      (status : AccountStatus) (w : W)
      → (create_and_deploy account status w).0 ≡ returned
      → ReturnedFor status
  unfolding create_and_deploy
  create_and_deploy-ReturnedFor with_contract w h = tt
  create_and_deploy-ReturnedFor undefined_status w h =
      ending_of-Deployed (deploy_loop account 10 w).0 (deploy_loop account 10 w).1
        (deploy_loop-Deployed 10 w) h
  create_and_deploy-ReturnedFor account_does_not_exist w h =
      go (create_loop account 10 w).0 (create_loop account 10 w).1 (create_loop-Created 10 w) h
    where
      go :
          (b : Bool) (w' : W)
          → (b ≡ true → Created)
          → (deploy_after account (b, w')).0 ≡ returned
          → Created × Deployed
      go true w' f k = (
        f refl,
        ending_of-Deployed (deploy_loop account 10 w').0 (deploy_loop account 10 w').1
            (deploy_loop-Deployed 10 w') k,
      )
      go false w' f k = cc

  status_of_missing :
      (w : W) (e : JsError)
      → (account.fetch_code_hash w).0 ≡ err e
      → (get_account_status account w).0 ≡ account_does_not_exist
  unfolding get_account_status
  status_of_missing w e q = rw (q, get_account_status)

  status_of_empty :
      (w : W) (hash : String)
      → (account.fetch_code_hash w).0 ≡ ok hash
      → str_eq hash empty_hash ≡ true
      → (get_account_status account w).0 ≡ undefined_status
  unfolding get_account_status
  status_of_empty w hash q empty = rw (q, get_account_status) (rw empty)

  -- `maybeCreateAccount` returns only if the account has a contract already, or one was deployed to
  -- it; and, where the account could not be fetched, only if it was created or turned out to exist.
  pub maybe_create_account-ReturnedIn :
      (w : W) → (maybe_create_account account w).0 ≡ returned → ReturnedIn w
  unfolding maybe_create_account
  maybe_create_account-ReturnedIn w h = go (account.fetch_code_hash w).0 refl
    where
      then_so :
          (status : AccountStatus) → (get_account_status account w).0 ≡ status → ReturnedFor status
      then_so status q =
          create_and_deploy-ReturnedFor status (get_account_status account w).1 (rw q at h)

      go : (r : Result String) → (account.fetch_code_hash w).0 ≡ r → ReturnedIn w
      go (err e) q =
          let (created, deployed) = then_so account_does_not_exist (status_of_missing w e q) in
          was_missing e q created deployed
      go (ok hash) q = elim (Bool-cases (str_eq hash empty_hash)) [
        | inl empty ↦
            was_empty (rw (← (eq_iff hash empty_hash).0 empty) q)
              (then_so undefined_status (status_of_empty w hash q empty))
        | inr code ↦ had_contract hash q (λ same. cc (code, (eq_iff hash empty_hash).1 same))
      ]

  -- The account was fetched, and has the key of the store, one question after the other.
  pub record VerifiedIn (w : W) : Type 0 where
    pub hash : String
    pub exists : (account.fetch_code_hash w).0 ≡ ok hash
    pub key : String
    pub stored : (account.key_of_store (account.fetch_code_hash w).1).0 ≡ ok key
    pub keys : List String
    pub fetched :
        (account.get_access_keys (account.key_of_store (account.fetch_code_hash w).1).1).0 ≡ ok keys
    pub has : (before after : List String) × (keys ≡ before ++ key ∷ after)

  has_key-split :
      (keys : List String) (key : String)
      → has_key keys key ≡ true
      → (before after : List String) × (keys ≡ before ++ key ∷ after)
  unfolding has_key
  has_key-split [] key h = cc
  has_key-split (k ∷ keys) key h = elim (Bool-cases (str_eq k key)) [
    | inl same ↦ let e = (eq_iff k key).0 same in ([], keys, rw e)
    | inr other ↦
        let (before, after, e) = has_key-split keys key (rw other at h) in (k ∷ before, after, rw e)
  ]

  -- `verifyAccount` returns only if the account can be fetched, and the key of the store is among its
  -- access keys.
  pub verify_account-VerifiedIn :
      (w : W) → (verify_account account w).0 ≡ ok returned → VerifiedIn w
  unfolding verify_account account_exists account_has_the_key
  verify_account-VerifiedIn w h = go (account.fetch_code_hash w).0 refl
    where
      last :
          (hash key : String) (r : Result (List String))
          → (account.fetch_code_hash w).0 ≡ ok hash
          → (account.key_of_store (account.fetch_code_hash w).1).0 ≡ ok key
          → (account.get_access_keys (account.key_of_store (account.fetch_code_hash w).1).1).0 ≡ r
          → VerifiedIn w
      last hash key (err e) q q1 q2 =
          cc (rw q2 at (rw q1 at (rw (q, verify_account, account_exists) at h)))
      last hash key (ok keys) q q1 q2 = elim (Bool-cases (has_key keys key)) [
        | inl has ↦ record {
          hash = hash;
          exists = q;
          key = key;
          stored = q1;
          keys = keys;
          fetched = q2;
          has = has_key-split keys key has;
        }
        | inr lacks ↦
            cc (rw lacks at (rw q2 at (rw q1 at (rw (q, verify_account, account_exists) at h))))
      ]

      second :
          (hash : String) (r : Result String)
          → (account.fetch_code_hash w).0 ≡ ok hash
          → (account.key_of_store (account.fetch_code_hash w).1).0 ≡ r
          → VerifiedIn w
      second hash (err e) q q1 = cc (rw q1 at (rw (q, verify_account, account_exists) at h))
      second hash (ok key) q q1 = last hash key _ q q1 refl

      go : (r : Result String) → (account.fetch_code_hash w).0 ≡ r → VerifiedIn w
      go (err e) q = cc (rw (q, verify_account, account_exists) at h)
      go (ok hash) q = second hash _ q refl
