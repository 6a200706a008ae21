-- ===== src/Relay/Watchdog/Ends.antt =====
-- A round of the watchdog ends.
use rainbow_bridge.Prelude.{
  ℕ, zero, suc, ◌+◌, ◌*◌, ◌^◌, ◌≤◌, ◌≡◌, refl, ap, inl, inr, Bool, true, false, arith, ltb, ◌==◌,
  str_eq, Bool-cases,
}
use rainbow_bridge.Prelude.Js.{Result, ok, err, ends_with}
use native.Mathlib.Nat.{pow-suc}
use rainbow_bridge.Robust.Contract.{gas_price_limit, slow_tx_error_msg}
use rainbow_bridge.Relay.Watchdog.{
  BridgeState, Chains, Options, State, send_challenge, challenge_loop, challenge, check_from,
  check_block, watch_round,
}

module _ {W : Type 0} (chains : Chains W) (options : Options) where
  challenge_loop_ends :
      (fuel index nonce price : ℕ) (s : State W)
      → gas_price_limit ≤ price * 2 ^ fuel
      → (challenge_loop chains options (suc fuel) index nonce price s).0 ≡ true
  unfolding challenge_loop
  challenge_loop_ends zero index nonce price s enough =
      let above : ltb price gas_price_limit ≡ false = ground arith in rw (above, challenge_loop)
  challenge_loop_ends (suc fuel) index nonce price s enough =
      go (send_challenge chains options index nonce price s).0 refl (
        challenge_loop_ends fuel index nonce (price * 2)
          (send_challenge chains options index nonce price s).1
          (omega (arith, ap (λ (t : ℕ). price * t) (pow-suc 2 fuel))))
    where
      Goal : Type 0
      Goal = (challenge_loop chains options (suc (suc fuel)) index nonce price s).0 ≡ true

      sent :
          (r : Result (Unit {0}))
          → ltb price gas_price_limit ≡ true
          → (send_challenge chains options index nonce price s).0 ≡ r
          → (challenge_loop chains options
              (suc fuel)
              index
              nonce
              (price * 2)
              (send_challenge chains options index nonce price s).1).0
            ≡ true
          → Goal
      sent (ok u) below q more = rw (below, challenge_loop) (rw q)
      sent (err e) below q more = elim (Bool-cases (str_eq e.message slow_tx_error_msg)) [
        | inr final ↦ rw (below, challenge_loop) (rw q (rw final))
        | inl slow ↦ rw (below, challenge_loop) (rw q (rw slow more))
      ]

      go :
          (r : Result (Unit {0}))
          → (send_challenge chains options index nonce price s).0 ≡ r
          → (challenge_loop chains options
              (suc fuel)
              index
              nonce
              (price * 2)
              (send_challenge chains options index nonce price s).1).0
            ≡ true
          → Goal
      go r q more = elim (Bool-cases (ltb price gas_price_limit)) [
        | inr above ↦ rw (above, challenge_loop)
        | inl below ↦ sent r below q more
      ]

  module _ (fuel : ℕ)
      (enough : (w : W) (p : ℕ)
        → (chains.get_gas_price w).0 ≡ ok p
        → gas_price_limit ≤ p * 2 ^ fuel) where
    challenge_ends :
        (index : ℕ) (s : State W) → (challenge chains options (suc fuel) index s).0 ≡ true
    unfolding challenge
    challenge_ends index s =
        go (chains.get_gas_price s.world).0
          (chains.get_transaction_count (chains.get_gas_price s.world).1).0 refl refl
      where
        go :
            (price count : Result ℕ)
            → (chains.get_gas_price s.world).0 ≡ price
            → (chains.get_transaction_count (chains.get_gas_price s.world).1).0 ≡ count
            → (challenge chains options (suc fuel) index s).0 ≡ true
        go (err e) count a b = rw (a, challenge)
        go (ok p) (err e) a b = rw (a, challenge) (rw b)
        go (ok p) (ok n) a b =
            rw (a, challenge) (rw b (challenge_loop_ends fuel index n p _ (enough s.world p a)))

    check_from_ends :
        (left i : ℕ) (s : State W) → (check_from chains options (suc fuel) left i s).0 ≡ true
    unfolding check_from
    check_from_ends zero i s = refl
    check_from_ends (suc left) i s =
        go (chains.check_signature i s.world).0 refl
          (check_from_ends left (i + 1) (record s { world = (chains.check_signature i s.world).1 }))
      where
        go :
            (r : Result Bool)
            → (chains.check_signature i s.world).0 ≡ r
            → (check_from chains options
                (suc fuel)
                left
                (i + 1)
                (record s { world = (chains.check_signature i s.world).1 })).0
              ≡ true
            → (check_from chains options (suc fuel) (suc left) i s).0 ≡ true
        go (ok true) q more = rw (q, check_from) more
        go (ok false) q more = rw (q, check_from) (challenge_ends i _)
        go (err e) q more = elim (Bool-cases (ends_with e.message "No such signature")) [
          | inl skipped ↦ rw (q, check_from) (rw skipped more)
          | inr final ↦ rw (q, check_from) (rw final)
        ]

    check_block_ends :
        (b : BridgeState) (s : State W) → (check_block chains options (suc fuel) b s).0 ≡ true
    unfolding check_block
    check_block_ends b s = elim (Bool-cases (b.next_valid_at == 0)) [
      | inl free ↦ rw (free, check_block)
      | inr pending ↦ rw (pending, check_block) (check_from_ends b.num_block_producers 0 s)
    ]

  -- Where every gas price that the node gives reaches the limit in `fuel` doublings, a round with one
  -- more round of the price loop than that ends, whatever else the node and the contract answer.
  pub watch_round_ends :
      (fuel : ℕ) (s : State W)
      → ((w : W) (p : ℕ) → (chains.get_gas_price w).0 ≡ ok p → gas_price_limit ≤ p * 2 ^ fuel)
      → (watch_round chains options (suc fuel) s).0 ≡ true
  unfolding watch_round
  watch_round_ends fuel s enough = go (chains.bridge_state s.world).0 refl
    where
      go :
          (r : Result BridgeState)
          → (chains.bridge_state s.world).0 ≡ r
          → (watch_round chains options (suc fuel) s).0 ≡ true
      go (err e) q = rw (q, watch_round)
      go (ok b) q = rw (q, watch_round) (check_block_ends fuel enough b _)
