-- ===== src/Robust/Calls.antt =====
-- The class `RobustWeb3` of utils/robust.js but for `callContract`: calls of a web3 provider, which
-- is a parameter, with a reconnection and retries.
use rainbow_bridge.Prelude.{
  ℕ, ◌≡◌, sym, ◌∙◌, String, Bool, Option, none, some, str_eq, arith, if◌then◌else◌,
}
use rainbow_bridge.Prelude.Js.{JsError, Result, ok, err, error, to_string}
use rainbow_bridge.Prelude.Async.{Async, pure, throw, catch, change, ◌>>=◌, ◌>>◌}
use rainbow_bridge.Robust.Backoff.{backoff, backoff-Ends}

-- web3 over a world `W`; `Block` and `Receipt` are its answers, and `none` is `null`.
pub record Node (W Block Receipt : Type 0) : Type 0 where
  pub get_block_number : Async W ℕ
  pub get_block : ℕ → Async W (Option Block)
  pub get_transaction_receipt : String → Async W (Option Receipt)
  pub set_provider : W → W

abbrev pub not_open : JsError → Bool
not_open e = str_eq (to_string e) "Error: connection not open"

module _ {W A : Type 0} (set_provider : W → W) where
  -- The `catch` of each method: reconnect, and throw the error again.
  unfoldable pub reconnecting : Async W A → Async W A
  reconnecting m = catch m (λ e. do change (if not_open e then set_provider else (λ w. w)); throw e)

-- A block that is `null` throws, so that `backoff` retries.
abbrev pub or_retry : {W Block : Type 0} → Option Block → Async W Block
or_retry none = throw (error "web3.eth.getBlock returns null")
or_retry (some block) = pure block

module _ {W Block Receipt D : Type 0} (node : Node W Block Receipt) (times : D → D → D)
    (sleep : D → W → W) (delay wait : D) where
  unfoldable pub robust_get_block_number : Async W ℕ
  robust_get_block_number =
      backoff times sleep 10 (reconnecting node.set_provider node.get_block_number) delay wait

  unfoldable pub robust_get_block : ℕ → Async W Block
  robust_get_block b =
      backoff times sleep 10
        (reconnecting node.set_provider (do block ← node.get_block b; or_retry block)) delay wait

  unfoldable pub robust_get_transaction_receipt : String → Async W (Option Receipt)
  robust_get_transaction_receipt t =
      backoff times sleep 10 (reconnecting node.set_provider (node.get_transaction_receipt t)) delay
        wait

-- The world after a call with this outcome: the provider is set anew for one error only.
abbrev pub reconnected : {W A : Type 0} → (W → W) → Result A → W → W
reconnected set_provider (ok a) w = w
reconnected set_provider (err e) w = if not_open e then set_provider w else w

-- A reconnecting call has the outcome of the call, and sets the provider anew exactly when the
-- call threw 'connection not open'.
pub reconnecting_lem :
    {W A : Type 0} (set_provider : W → W) (m : Async W A) (w : W)
    → reconnecting set_provider m w ≡ ((m w).0, reconnected set_provider (m w).0 (m w).1)
unfolding reconnecting
reconnecting_lem set_provider m w = ground arith

module _ {W Block Receipt D : Type 0} (node : Node W Block Receipt) (times : D → D → D)
    (sleep : D → W → W) (delay wait : D) where
  one_block :
      (b : ℕ) (w w' : W) (block : Block)
      → reconnecting node.set_provider (do found ← node.get_block b; or_retry found) w
        ≡ (ok block, w')
      → node.get_block b w ≡ (ok (some block), w')
  unfolding reconnecting
  one_block b w w' block h = ground arith

  -- A block that `getBlock` returns is one that the node gave in answer to a call, the last one; an
  -- answer `null` is never passed on.
  pub robust_get_block-ok :
      (b : ℕ) (w w' : W) (block : Block)
      → robust_get_block node times sleep delay wait b w ≡ (ok block, w')
      → (u : W) × (node.get_block b u ≡ (ok (some block), w'))
  unfolding robust_get_block
  robust_get_block-ok b w w' block h =
      let ends =
        backoff-Ends times sleep 9
          (reconnecting node.set_provider (do found ← node.get_block b; or_retry found)) delay wait
          w in
      (ends.world, one_block b ends.world w' block (sym ends.result ∙ h))
