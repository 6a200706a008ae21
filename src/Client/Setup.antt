-- ===== src/Client/Setup.antt =====
-- `maybeInitialize` of eth2near/eth2near-block-relay/eth-on-near-client.js and of eth-on-near-prover.js. The
-- header's encoding, the Ethereum node and the contract's methods are parameters.
use rainbow_bridge.Prelude.{
  ℕ, ◌≡◌, refl, inl, inr, String, Bool, true, false, ◌&&◌, Option, List, str_eq, eq_iff, Bool-cases,
  if◌then◌else◌,
}
use rainbow_bridge.Prelude.Int.{ℤ, pos}
use rainbow_bridge.Client.EthBlocks.{get_eth_block}
use rainbow_bridge.Prelude.Js.{Result, ok, err, error, includes}
use rainbow_bridge.Prelude.Async.{Async, pure, throw, catch, ◌>>=◌, ◌>>◌, bind-ok}

and_true : (a b : Bool) → (a && b) ≡ true → (a ≡ true) × (b ≡ true)
and_true true true h = (refl, refl)
and_true true false h = cc
and_true false b h = cc

-- What `maybeInitialize` calls: the contract and the Ethereum node.
pub record Setup (W EthBlock : Type 0) : Type 0 where
  pub find_access_key : Async W Bool
  pub initialized : Async W Bool
  pub get_block_number : Async W ℕ
  pub post : ℤ → Async W (Option EthBlock)
  pub sleep : ℕ → W → W
  pub block_to_rlp : Option EthBlock → Async W (List ℕ)
  pub init : List ℕ → Async W (Unit {0})
  pub dag_merkle_root : ℕ → Async W String

-- It returns, or leaves the process.
pub data Boot : Type 0 where
  done exited : Boot

module _ {W EthBlock : Type 0} (setup : Setup W EthBlock) where
  unfoldable pub access_key_init : Async W (Unit {0})
  access_key_init = do
    found ← setup.find_access_key
    if found then pure tt else throw (error "Can not sign transactions for account")

  -- An error of `initialized` counts as no.
  unfoldable pub is_initialized : Async W Bool
  is_initialized = catch setup.initialized (λ e. pure false)

  unfoldable pub init_from_head : Async W (Unit {0})
  init_from_head = do
    last ← setup.get_block_number
    block ← get_eth_block setup.post setup.sleep (pos last)
    rlp ← setup.block_to_rlp block
    setup.init rlp

  abbrev pub roots_match : String → String → Bool
  roots_match first last =
      str_eq first "0x55b891e842e58f58956a847cbbf67821"
      && str_eq last "0x7a9010568819de327a24fa495029adcb"

  unfoldable pub check_roots : Async W Boot
  check_roots = do
    first ← setup.dag_merkle_root 0
    last ← setup.dag_merkle_root 511
    if roots_match first last then pure done else pure exited

  unfoldable pub maybe_initialize : Async W Boot
  maybe_initialize = do
    access_key_init
    ready ← is_initialized
    if ready then pure tt else init_from_head
    check_roots

  -- An answer that a call gives in some world.
  abbrev pub Said : {A : Type 0} → Async W A → A → Type 0
  Said m a = (w : W) × ((m w).0 ≡ ok a)

  check_roots-done :
      (w : W)
      → (check_roots w).0 ≡ ok done
      → Said (setup.dag_merkle_root 0) "0x55b891e842e58f58956a847cbbf67821"
        × Said (setup.dag_merkle_root 511) "0x7a9010568819de327a24fa495029adcb"
  unfolding check_roots
  check_roots-done w h =
      go (setup.dag_merkle_root 0 w).0 (setup.dag_merkle_root 511 (setup.dag_merkle_root 0 w).1).0
        refl refl
    where
      go :
          (a b : Result String)
          → (setup.dag_merkle_root 0 w).0 ≡ a
          → (setup.dag_merkle_root 511 (setup.dag_merkle_root 0 w).1).0 ≡ b
          → Said (setup.dag_merkle_root 0) "0x55b891e842e58f58956a847cbbf67821"
            × Said (setup.dag_merkle_root 511) "0x7a9010568819de327a24fa495029adcb"
      go (err e) b qa qb = cc (rw (qa, check_roots) at h)
      go (ok first) (err e) qa qb = cc (rw (qb) at (rw (qa, check_roots) at h))
      go (ok first) (ok last) qa qb = elim (Bool-cases (roots_match first last)) [
        | inr differ ↦ cc (rw (differ) at (rw (qb) at (rw (qa, check_roots) at h)))
        | inl same ↦
            let (a, b) = and_true _ _ same in
            let e : first ≡ "0x55b891e842e58f58956a847cbbf67821" = (eq_iff _ _).0 a in
            let e' : last ≡ "0x7a9010568819de327a24fa495029adcb" = (eq_iff _ _).0 b in
            ((w, rw e at qa), ((setup.dag_merkle_root 0 w).1, rw e' at qb))
      ]

  -- `maybeInitialize` returns only if the contract gave the two roots, of the first and of the last
  -- epoch, that the code knows, and the account has a key for signing.
  pub maybe_initialize-done :
      (w : W)
      → (maybe_initialize w).0 ≡ ok done
      → Said setup.find_access_key true
        × Said (setup.dag_merkle_root 0) "0x55b891e842e58f58956a847cbbf67821"
        × Said (setup.dag_merkle_root 511) "0x7a9010568819de327a24fa495029adcb"
  unfolding maybe_initialize access_key_init
  maybe_initialize-done w h =
      let (u, w1, a, h1) =
        bind-ok access_key_init
          (λ _. is_initialized >>= λ ready.
            (if ready then pure tt else init_from_head) >>= λ _. check_roots)
          w done h in
      let (ready, w2, b, h2) =
        bind-ok is_initialized
          (λ ready. (if ready then pure tt else init_from_head) >>= λ _. check_roots) w1 done h1 in
      let (v, w3, c, h3) =
        bind-ok (if ready then pure tt else init_from_head) (λ _. check_roots) w2 done h2 in
      let (first, last) = check_roots-done w3 h3 in
      let (found, w4, d, h4) =
        bind-ok setup.find_access_key
          (λ found.
            if found then pure tt else throw (error "Can not sign transactions for account"))
          w u a in
      (keyed found w4 d h4, first, last)
    where
      keyed :
          (found : Bool) (w4 : W)
          → (setup.find_access_key w).0 ≡ ok found
          → ((if found then pure tt else throw (error "Can not sign transactions for account"))
              w4).0
            ≡ ok tt
          → Said setup.find_access_key true
      keyed true w4 d h4 = (w, d)
      keyed false w4 d h4 = cc

-- `maybeInitialize` of eth-on-near-prover.js: an `init` that says that it was done before is no error.
unfoldable pub init_once : {W : Type 0} → Async W (Unit {0}) → Async W (Unit {0})
init_once init =
    catch init
      (λ e. if includes e.message "The contract is already initialized" then pure tt else throw e)

unfoldable pub prover_maybe_initialize :
    {W : Type 0} → Async W (Unit {0}) → Async W (Unit {0}) → Async W (Unit {0})
prover_maybe_initialize access_key_init init = do access_key_init; init_once init
