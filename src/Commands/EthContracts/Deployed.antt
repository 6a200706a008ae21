-- ===== src/Commands/EthContracts/Deployed.antt =====
-- What it means that a deployment on Ethereum returns an address.
use rainbow_bridge.Prelude.{
  ℕ, zero, suc, ◌+◌, ◌*◌, ◌≤◌, ◌<◌, ◌≡◌, ◌≢◌, refl, sym, ap, ◌∙◌, str_eq, eq_iff, ◌⊎◌, inl, inr,
  arith, String, List, [], ◌∷◌, true, false, ◌||◌, Option, none, some, ltb, Bool-cases,
  Option-cases,
}
use rainbow_bridge.Prelude.Js.{JsError, Result, ok, err, includes, ok_inj}
use rainbow_bridge.Prelude.Async.{Async, ◌>>=◌, lift-elim}
use rainbow_bridge.Commands.Keys.{normalize_eth_key}
use rainbow_bridge.Commands.Status.{given}
use rainbow_bridge.Commands.EthContracts.{
  Arg, address, number, Eth, Job, Master, returned, code_of, deploy_once, deploy_loop, execute,
  run_job, artifact_job, admin_or_master, min_allowed_replace_duration, client_args,
  init_eth_client,
}

module _ {W Abi : Type 0} (eth : Eth W Abi) (master : Master) where
  abbrev pub IsNonceError : JsError → Type 0
  IsNonceError e =
      (includes e.message "the tx doesn't have the correct nonce"
        || includes e.message "replacement transaction underpriced")
      ≡ true

  -- This many deployments in a row failed with such an error, with five seconds after each.
  pub data Retried (job : Job) : ℕ → W → W → Type 0 where
    start : {w : W} → Retried job zero w w
    retried :
        {n : ℕ} {w w' : W} (e : JsError)
        → (deploy_once eth master job w).0 ≡ err e
        → IsNonceError e
        → Retried job n (eth.sleep 5000 (deploy_once eth master job w).1) w'
        → Retried job (suc n) w w'

  -- The contract of the artifact at this path was deployed with these arguments and this gas, from the
  -- account of the master's key, at the node's price times the multiplier: the questions, one after the
  -- other from this world, and the deployment's answer.
  pub record DeployedWith (args : List Arg) (gas : ℕ) (path : String) (w : W) (raw : String)
      : Type 0 where
    pub account : String
    pub w1 : W
    pub connected :
        eth.connect master.node_url (normalize_eth_key eth.to_lower_case master.sk) w
        ≡ (ok account, w1)
    pub abi : Abi
    pub code : String
    pub w2 : W
    pub artifact : eth.read_artifact path w1 ≡ (ok (abi, code), w2)
    pub price : ℕ
    pub w3 : W
    pub priced : eth.gas_price w2 ≡ (ok price, w3)
    pub deployed :
        (eth.deploy abi code args account gas (price * master.gas_multiplier) w3).0 ≡ ok raw

  bind-pair :
      {A B : Type 0} (m : Async W A) (f : A → Async W B) (w : W) (b : B)
      → ((m >>= f) w).0 ≡ ok b
      → (a : A) × (w' : W) × (m w ≡ (ok a, w')) × ((f a w').0 ≡ ok b)
  bind-pair {A} {B} m f w b h = go (m w).0 (m w).1 refl
    where
      go :
          (r : Result A) (w' : W)
          → m w ≡ (r, w')
          → (a : A) × (w'' : W) × (m w ≡ (ok a, w'')) × ((f a w'').0 ≡ ok b)
      go (err e) w' q = cc (rw q at h)
      go (ok a) w' q = (a, w', q, rw q at h)

  deploy_once-DeployedWith :
      (args : List Arg) (gas : ℕ) (path : String) (w : W) (raw : String)
      → given (some path) ≡ some path
      → (deploy_once eth master (artifact_job eth master args gas path) w).0 ≡ ok raw
      → DeployedWith args gas path w raw
  unfolding deploy_once
  deploy_once-DeployedWith args gas path w raw path_given h =
      let (account, w1, e1, h1) =
        bind-pair (eth.connect master.node_url (normalize_eth_key eth.to_lower_case master.sk)) _ w
          raw h in
      let (artifact, w2, e2, h2) =
        bind-pair (code_of eth master (artifact_job eth master args gas path)) _ w1 raw h1 in
      let (price, w3, e3, h3) = bind-pair eth.gas_price _ w2 raw h2 in
      record {
        account = account;
        w1 = w1;
        connected = e1;
        abi = artifact.0;
        code = artifact.1;
        w2 = w2;
        artifact = rw (code_of, path_given) at e2;
        price = price;
        w3 = w3;
        priced = e3;
        deployed = h3;
      }

  -- The job was done at the last of at most `attempts` tries.
  pub record Deployed (job : Job) (attempts : ℕ) (w : W) (a : String) : Type 0 where
    pub retries : ℕ
    pub few : retries < attempts
    pub last : W
    pub before : Retried job retries w last
    pub raw : String
    pub deploys : (deploy_once eth master job last).0 ≡ ok raw
    pub same : a ≡ normalize_eth_key eth.to_lower_case raw

  deploy_loop-Deployed :
      (job : Job) (attempts : ℕ) (w : W) (a : String)
      → (deploy_loop eth master job attempts w).0 ≡ some a
      → Deployed job attempts w a
  unfolding deploy_loop
  deploy_loop-Deployed job zero w a h = cc
  deploy_loop-Deployed job (suc attempts) w a h =
      go (deploy_once eth master job w).0 refl
        (deploy_loop-Deployed job attempts (eth.sleep 5000 (deploy_once eth master job w).1) a)
    where
      go :
          (r : Result String)
          → (deploy_once eth master job w).0 ≡ r
          → ((deploy_loop eth master job attempts
                  (eth.sleep 5000 (deploy_once eth master job w).1)).0
                ≡ some a
              → Deployed job attempts (eth.sleep 5000 (deploy_once eth master job w).1) a)
          → Deployed job (suc attempts) w a
      go (ok raw) q later = record {
        retries = 0;
        few = omega arith;
        last = w;
        before = start;
        raw = raw;
        deploys = q;
        same = cc (rw (q, deploy_loop) at h);
      }
      go (err e) q later =
          elim (Bool-cases (
            includes e.message "the tx doesn't have the correct nonce"
            || includes e.message "replacement transaction underpriced")) [
              | inl nonce ↦
                  let d = later (rw nonce at (rw (q, deploy_loop) at h)) in
                  record {
                    retries = suc d.retries;
                    few = omega (arith, d.few);
                    last = d.last;
                    before = retried e q nonce d.before;
                    raw = d.raw;
                    deploys = d.deploys;
                    same = d.same;
                  }
              | inr other ↦ cc (rw other at (rw (q, deploy_loop) at h))
            ]

  execute-Deployed :
      (job : Job) (w : W) (a : String) → (execute eth master job w).0 ≡ some a → Deployed job 15 w a
  unfolding execute
  execute-Deployed job w a h = elim (Option-cases (given job.artifact_path)) [
    | inr (path, q) ↦ deploy_loop-Deployed job 15 w a (rw (q, execute) at h)
    | inl q ↦ elim (Option-cases (given job.abi_path)) [
      | inl q' ↦ cc (rw q' at (rw (q, execute) at h))
      | inr (abi_path, q') ↦ elim (Option-cases (given job.bin_path)) [
        | inl q'' ↦ cc (rw q'' at (rw q' at (rw (q, execute) at h)))
        | inr (bin_path, q'') ↦
            deploy_loop-Deployed job 15 w a (rw q'' at (rw q' at (rw (q, execute) at h)))
      ]
    ]
  ]

  run_job-some :
      (job : Job) (w : W) (a : String)
      → (run_job eth master job w).0 ≡ ok (returned a)
      → (execute eth master job w).0 ≡ some a
  unfolding run_job
  run_job-some job w a h = go (execute eth master job w).0 refl
    where
      go :
          (o : Option String)
          → (execute eth master job w).0 ≡ o
          → (execute eth master job w).0 ≡ some a
      go none q = cc (rw (q, run_job) at h)
      go (some a') q = let same : a' ≡ a = cc (rw (q, run_job) at h) in q ∙ ap some same

  run_job-Deployed :
      (job : Job) (w : W) (a : String)
      → (run_job eth master job w).0 ≡ ok (returned a)
      → Deployed job 15 w a
  run_job-Deployed job w a h = execute-Deployed job w a (run_job-some job w a h)

  least :
      (lock replace : ℕ)
      → ltb replace (min_allowed_replace_duration eth master lock) ≡ false
      → (lock + 1200 ≤ replace) ⊎ (2 * lock ≤ replace)
  unfolding min_allowed_replace_duration
  least lock replace h = ground arith

  -- The owner: the address that is given, or that of the master's key.
  abbrev pub IsAdmin : String → String → Type 0
  IsAdmin given_address admin =
      ((given_address ≢ "") × (admin ≡ given_address))
      ⊎ ((given_address ≡ "") × (eth.address_of master.sk ≡ ok admin))

  admin_or_master-IsAdmin :
      (given_address admin : String)
      → admin_or_master eth master given_address ≡ ok admin
      → IsAdmin given_address admin
  unfolding admin_or_master
  admin_or_master-IsAdmin given_address admin h = elim (Bool-cases (str_eq given_address "")) [
    | inl empty ↦ inr ((eq_iff given_address "").0 empty, rw empty at h)
    | inr some_address ↦
        let same : Path (Result String) (ok given_address) (ok admin) = rw some_address at h in
        inl (λ e. cc (some_address, (eq_iff given_address "").1 e), sym (ok_inj _ _ same))
  ]

  -- The constructor's arguments, with the second duration in nanoseconds.
  abbrev pub ClientArgs : String → ℕ → ℕ → ℕ → String → List Arg → Type 0
  ClientArgs ed25519 lock_eth_amount lock replace admin args =
      args
      ≡ address ed25519
        ∷ number lock_eth_amount
        ∷ number lock
        ∷ number (replace * 1_000_000_000)
        ∷ address admin
        ∷ number 0
        ∷ []

  given-cases : (path : String) → (given (some path) ≡ none) ⊎ (given (some path) ≡ some path)
  unfolding given
  given-cases path = elim (Bool-cases (str_eq path "")) [
    | inl empty ↦ inl (rw empty)
    | inr full ↦ inr (rw full)
  ]

  path_given :
      (args : List Arg) (gas : ℕ) (path : String) (w : W) (a : String)
      → (execute eth master (artifact_job eth master args gas path) w).0 ≡ some a
      → given (some path) ≡ some path
  unfolding execute given
  path_given args gas path w a h = elim (given-cases path) [
    | inr full ↦ full
    | inl empty ↦ cc (rw (empty, execute) at h)
  ]

  -- The answer of the node to a deployment, at the last of at most fifteen tries, each of which before it
  -- failed with a nonce error.
  pub record ClientDeployed (args : List Arg) (path : String) (w : W) (a : String) : Type 0 where
    pub retries : ℕ
    pub few : retries < 15
    pub last : W
    pub before : Retried (artifact_job eth master args 5_000_000 path) retries w last
    pub raw : String
    pub deploys : DeployedWith args 5_000_000 path last raw
    pub same : a ≡ normalize_eth_key eth.to_lower_case raw

  run_job-ClientDeployed :
      (args : List Arg) (path : String) (w : W) (a : String)
      → (run_job eth master (artifact_job eth master args 5_000_000 path) w).0 ≡ ok (returned a)
      → ClientDeployed args path w a
  run_job-ClientDeployed args path w a h =
      let job : Job = artifact_job eth master args 5_000_000 path in
      let d = run_job-Deployed job w a h in
      record {
        retries = d.retries;
        few = d.few;
        last = d.last;
        before = d.before;
        raw = d.raw;
        deploys =
            deploy_once-DeployedWith args 5_000_000 path d.last d.raw
              (path_given args 5_000_000 path w a (run_job-some job w a h)) d.deploys;
        same = d.same;
      }

  -- `InitEthClient` returns an address only if blocks are replaced after at least twice the lock
  -- duration, or twenty minutes more than it, and a contract with these durations, the second in
  -- nanoseconds, and with the given admin, or the master's account for none, was deployed at this
  -- address, at the last of at most fifteen tries; each try before failed with a nonce error.
  pub init_eth_client-Deployed :
      (ed25519 : String) (lock_eth_amount lock replace : ℕ) (path admin_address : String) (w : W)
      (a : String)
      → (init_eth_client eth master ed25519 lock_eth_amount lock replace path admin_address w).0
        ≡ ok (returned a)
      → ((lock + 1200 ≤ replace) ⊎ (2 * lock ≤ replace))
        × ((admin : String) × (args : List Arg) × IsAdmin admin_address admin
            × ClientArgs ed25519 lock_eth_amount lock replace admin args
            × ClientDeployed args path w a)
  unfolding init_eth_client
  init_eth_client-Deployed ed25519 lock_eth_amount lock replace path admin_address w a h =
      lift-elim (admin_or_master eth master admin_address) _ w (returned a) h λ admin q k.
        elim (Bool-cases (ltb replace (min_allowed_replace_duration eth master lock))) [
          | inl short ↦ cc (rw short at k)
          | inr long ↦ (
            least lock replace long,
            (
              admin,
              client_args eth master ed25519 lock_eth_amount lock replace admin,
              admin_or_master-IsAdmin admin_address admin q,
              refl,
              run_job-ClientDeployed _ path w a (rw long at k),
            ),
          )
        ]
