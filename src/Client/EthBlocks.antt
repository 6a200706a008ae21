-- ===== src/Client/EthBlocks.antt =====
-- `getEthBlock` of eth2near/eth2near-block-relay/eth-on-near-client.js. The node's RPC is a parameter.
use rainbow_bridge.Prelude.{ℕ, zero, suc, ◌≤◌, ◌≡◌, refl, Option, none, some, arith}
use rainbow_bridge.Prelude.Int.{ℤ}
use rainbow_bridge.Prelude.Js.{Result, ok, err}
use rainbow_bridge.Prelude.Async.{Async}

module _ {W EthBlock : Type 0} (post : ℤ → Async W (Option EthBlock)) (sleep : ℕ → W → W) where
  -- The loop with `attempts` left, and the last answer; `none` is `null`.
  unfoldable pub ask_block : ℕ → ℤ → Option EthBlock → Async W (Option EthBlock)
  ask_block zero number last w = (ok last, w)
  ask_block (suc attempts) number last w = elim (post number w).0 [
    | err e ↦ (err e, (post number w).1)
    | ok answer ↦ elim answer [
      | none ↦ ask_block attempts number none (sleep 800 (post number w).1)
      | some block ↦ (ok (some block), (post number w).1)
    ]
  ]

  unfoldable pub get_eth_block : ℤ → Async W (Option EthBlock)
  get_eth_block number w = ask_block 10 number none w

  -- The node answered `null` this many times in a row, with a pause after each.
  pub data Nulls (number : ℤ) : ℕ → W → W → Type 0 where
    start : {w : W} → Nulls number zero w w
    null_again :
        {n : ℕ} {w w' : W}
        → (post number w).0 ≡ ok none
        → Nulls number n (sleep 800 (post number w).1) w'
        → Nulls number (suc n) w w'

  -- How the loop of at most `attempts` posts ends: after `k` times null with a block or an error, or
  -- with null after all of them.
  abbrev pub EndsAs : ℕ → ℤ → W → Result (Option EthBlock) → Type 0
  EndsAs attempts number w (ok none) = (w' : W) × Nulls number attempts w w'
  EndsAs attempts number w (ok (some block)) =
      (k : ℕ) × (w' : W) × (suc k ≤ attempts)
      × Nulls number k w w'
      × ((post number w').0 ≡ ok (some block))
  EndsAs attempts number w (err e) =
      (k : ℕ) × (w' : W) × (suc k ≤ attempts) × Nulls number k w w' × ((post number w').0 ≡ err e)

  one_more :
      (attempts : ℕ) (number : ℤ) (w : W) (r : Result (Option EthBlock))
      → (post number w).0 ≡ ok none
      → EndsAs attempts number (sleep 800 (post number w).1) r
      → EndsAs (suc attempts) number w r
  one_more attempts number w (ok none) q (w', nulls) = (w', null_again q nulls)
  one_more attempts number w (ok (some block)) q (k, w', few, nulls, last) =
      (suc k, w', omega arith, null_again q nulls, last)
  one_more attempts number w (err e) q (k, w', few, nulls, last) =
      (suc k, w', omega arith, null_again q nulls, last)

  ask_block_lem :
      (attempts : ℕ) (number : ℤ) (w : W)
      → EndsAs attempts number w (ask_block attempts number none w).0
  unfolding ask_block
  ask_block_lem zero number w = (w, start)
  ask_block_lem (suc attempts) number w =
      go (post number w).0 refl (ask_block_lem attempts number (sleep 800 (post number w).1))
    where
      go :
          (r : Result (Option EthBlock))
          → (post number w).0 ≡ r
          → EndsAs attempts number
              (sleep 800 (post number w).1)
              (ask_block attempts number none (sleep 800 (post number w).1)).0
          → EndsAs (suc attempts) number w (ask_block (suc attempts) number none w).0
      go (err e) q rest = rw (q, ask_block) (0, w, omega arith, start, q)
      go (ok (some block)) q rest = rw (q, ask_block) (0, w, omega arith, start, q)
      go (ok none) q rest =
          rw (q, ask_block)
            (one_more attempts number w
              (ask_block attempts number none (sleep 800 (post number w).1)).0 q rest)

  -- `getEthBlock` asks at most ten times. It returns the first block that the node gives, and throws
  -- the first error; it returns null only if the node answered null ten times.
  pub get_eth_block_lem : (number : ℤ) (w : W) → EndsAs 10 number w (get_eth_block number w).0
  unfolding get_eth_block
  get_eth_block_lem number w = ask_block_lem 10 number w
