-- ===== src/Relay/Near2Eth/Rounds.antt =====
-- What one round does to the chains, and when it submits a block.
use rainbow_bridge.Prelude.{
  ℕ, ◌+◌, ◌*◌, ◌≤◌, ◌<◌, ◌≡◌, refl, sym, ◌⊎◌, String, inl, inr, true, false, List, [], ◌∷◌, ◌++◌,
  length, ◌≢◌, ◌%◌, zero, suc, append-nil, append_assoc, arith, ◌==◌,
}
use rainbow_bridge.Prelude.Int.{pos, ◌-ℤ◌}
use rainbow_bridge.Prelude.Js.{Result, ok, err}
use rainbow_bridge.Relay.Near2Eth.Rules.{
  Triple-said, Said, Case, Triple, Triple-pure, Triple-if, Triple-bind, Triple-act, Triple-sleep,
}
use rainbow_bridge.Relay.Near2Eth.Delay.{
  IsDelay, nothing_pending-IsDelay, delay_from-IsDelay, delay-seconds,
}
use rainbow_bridge.Relay.Near2Eth.{
  BridgeState, Block, Options, Act, deposit, add_block, sleep, Chains, State, Next, submitted,
  waited, exited, failed, milliseconds, should_submit, act, ensure_stake, encode_block, sleep_for,
  count_up, submit, find_delay, wait_for_next, try_round, round,
}

-- Nothing, or the deposit of the stake.
abbrev pub IsStake : List Act → Type 0
IsStake xs = (xs ≡ []) ⊎ ((amount price : ℕ) × (xs ≡ deposit amount price ∷ []))

-- The submission of the bytes, after the deposit if there is one.
abbrev pub IsSubmission : List ℕ → List Act → Type 0
IsSubmission bs xs =
    (ds : List Act) × (price : ℕ) × IsStake ds × (xs ≡ ds ++ add_block bs price ∷ [])

-- At most a deposit and then at most a submission.
abbrev pub IsWork : List Act → Type 0
IsWork xs = IsStake xs ⊎ ((bs : List ℕ) × IsSubmission bs xs)

-- A block that the client does not have yet, and that it accepts: nothing is pending, or the block
-- is newer than the pending one by the replacement time. All numbers are answers of the chains.
pub record Submittable {W : Type 0} (chains : Chains W) (s : BridgeState) (duration : ℕ)
    (block : Block) : Type 0 where
  pub said_state : Said chains.bridge_state s
  pub said_block :
      (hash : String) × Said (chains.block_hash s.current_height) hash
      × Said (chains.next_light_client_block hash) block
  pub said_duration : Said chains.replace_duration duration
  pub higher : s.current_height < block.height
  pub free : (s.next_valid_at ≡ 0) ⊎ (s.next_timestamp + duration ≤ block.timestamp)

-- A byte at this place is counted up, modulo 256; past the end nothing changes.
pub data CountedUp : ℕ → List ℕ → List ℕ → Type 0 where
  outside : {i : ℕ} → CountedUp i [] []
  here : {b : ℕ} {bs : List ℕ} → CountedUp 0 (b ∷ bs) ((b + 1) % 256 ∷ bs)
  later : {i b : ℕ} {bs cs : List ℕ} → CountedUp i bs cs → CountedUp (suc i) (b ∷ bs) (b ∷ cs)

count_up-CountedUp : (bs : List ℕ) (i : ℕ) → CountedUp i bs (count_up bs i)
unfolding count_up
count_up-CountedUp [] i = outside
count_up-CountedUp (b ∷ bs) zero = here
count_up-CountedUp (b ∷ bs) (suc i) = later (count_up-CountedUp bs i)

-- The invalid form of the bytes: one byte, at a place that was picked for their length, is changed.
abbrev pub IsInvalid : {W : Type 0} → Chains W → List ℕ → List ℕ → Type 0
IsInvalid chains bs cs = (i : ℕ) × Said (chains.random_index (length bs)) i × CountedUp i bs cs

-- A block that the client has already, or that cannot replace the pending one yet.
pub record Unfit {W : Type 0} (chains : Chains W) (s : BridgeState) (duration : ℕ) (block : Block)
    : Type 0 where
  pub said_state : Said chains.bridge_state s
  pub said_block :
      (hash : String) × Said (chains.block_hash s.current_height) hash
      × Said (chains.next_light_client_block hash) block
  pub said_duration : Said chains.replace_duration duration
  pub why :
      (block.height ≤ s.current_height)
      ⊎ ((s.next_valid_at ≢ 0) × (block.timestamp < s.next_timestamp + duration))

-- What a round that ends in this way did.
abbrev pub RoundSpec : {W : Type 0} → Chains W → Options → Next → List Act → Type 0
RoundSpec chains options submitted ys =
    (options.submit_invalid_block ≡ false)
    × (s : BridgeState) × (duration : ℕ) × (block : Block) × Submittable chains s duration block
    × (pre : List Act) × IsSubmission block.encoded pre
    × (ys ≡ pre ++ sleep (pos 240000) ∷ [])
RoundSpec chains options exited ys =
    (options.submit_invalid_block ≡ true)
    × (s : BridgeState) × (duration : ℕ) × (block : Block) × Submittable chains s duration block
    × (bs : List ℕ) × IsInvalid chains block.encoded bs
    × IsSubmission bs ys
RoundSpec chains options (waited delay) ys =
    (s : BridgeState) × (duration : ℕ) × (block : Block) × Unfit chains s duration block
    × IsDelay chains options s duration block delay
    × (n : ℕ) × (delay ≡ pos n)
    × (ys ≡ sleep (pos (1000 * n)) ∷ [])
RoundSpec chains options failed ys =
    (pre : List Act) × IsWork pre × (ys ≡ pre ++ sleep (pos (1000 * options.error_delay)) ∷ [])

module _ {W : Type 0} (chains : Chains W) (options : Options) where
  abbrev None : List Act → Type 0
  None xs = xs ≡ []

  None-IsWork : (xs : List Act) → None xs → IsWork xs
  None-IsWork xs h = inl (inl h)

  ensure_stake_lem :
      Triple chains options None (ensure_stake chains options) (λ _ xs. IsStake xs) IsWork
  unfolding ensure_stake
  ensure_stake_lem = Triple-said chains options chains.lock_eth_amount _ None-IsWork λ amount _.
      Triple-said chains options chains.balance_of_relay _ None-IsWork λ balance _.
        Triple-if chains options (balance == 0) _ _
          (λ _. Triple-said chains options chains.gas_price _ None-IsWork λ price _.
            Triple-act chains options (deposit amount (price * options.gas_multiplier)) (λ xs h.
              let one : IsStake (xs ++ deposit amount (price * options.gas_multiplier) ∷ []) =
                inr (amount, price * options.gas_multiplier, rw h) in
              (one, inl one)))
          (λ _. Triple-pure chains options tt (λ xs h. inl h))

  module _ (s : BridgeState) (duration : ℕ) (block : Block)
      (sub : Submittable chains s duration block) where
    -- The bytes that are sent: the block's, or their invalid form.
    Bytes : List ℕ → Type 0
    Bytes bs =
        (options.submit_invalid_block ≡ false → bs ≡ block.encoded)
        × (options.submit_invalid_block ≡ true → IsInvalid chains block.encoded bs)

    -- After the transaction with the bytes.
    Sent : List ℕ → List Act → Type 0
    Sent bs xs = IsSubmission bs xs × Bytes bs

    Encoded : List ℕ → List Act → Type 0
    Encoded bs xs = IsStake xs × Bytes bs

    encode_block_lem :
        Triple chains options IsStake (encode_block chains options block) Encoded IsWork
    unfolding encode_block Encoded Bytes
    encode_block_lem =
        Triple-if chains options options.submit_invalid_block _ _
          (λ invalid.
            Triple-said chains options (chains.random_index (length block.encoded)) _
              (λ xs h. inl h)
              λ i said. Triple-pure chains options (count_up block.encoded i) (λ xs h. (
                h,
                (
                  λ q. absurd (ground (arith, invalid, q)),
                  λ q. (i, said, count_up-CountedUp block.encoded i),
                ),
              )))
          (λ valid.
            Triple-pure chains options block.encoded
              (λ xs h. (h, (λ q. refl, λ q. absurd (ground (arith, valid, q))))))

    submit_lem :
        Triple chains options None (submit chains options block) (RoundSpec chains options) IsWork
    unfolding submit Encoded Sent Bytes
    submit_lem = Triple-bind chains options _ _ ensure_stake_lem λ _.
        Triple-bind chains options _ _ encode_block_lem λ bs.
          Triple-said chains options chains.gas_price _ (λ xs h. inl h.0)
            λ price _.
              Triple-bind chains options {Q = λ _. Sent bs} _ _
                (Triple-act chains options (add_block bs (price * options.gas_multiplier)) (λ xs h.
                  let whole : IsSubmission bs
                      (xs ++ add_block bs (price * options.gas_multiplier) ∷ []) =
                    (xs, price * options.gas_multiplier, h.0, refl) in
                  ((whole, h.1), inr (bs, whole))))
                λ _.
                  Triple-if chains options options.submit_invalid_block _ _
                    (λ invalid.
                      Triple-pure chains options exited
                        (λ xs h. (invalid, s, duration, block, sub, bs, h.1.1 invalid, h.0)))
                    (λ valid.
                      Triple-bind chains options {Q = λ _. RoundSpec chains options submitted} _ _
                        (Triple-sleep chains options (pos 240000) (λ xs h.
                          (valid, s, duration, block, sub, xs, rw (← h.1.0 valid) h.0, refl)))
                        λ _. Triple-pure chains options submitted (λ xs h. h))

  find_delay_lem :
      (s : BridgeState) (duration : ℕ) (block : Block)
      → Triple chains options None
          (find_delay chains options s duration block)
          (λ delay xs. None xs × IsDelay chains options s duration block delay)
          IsWork
  unfolding find_delay
  find_delay_lem s duration block =
      Triple-if chains options (s.next_valid_at == 0) _ _
        (λ free.
          Triple-pure chains options _
            (λ xs h. (h, nothing_pending-IsDelay chains options s duration block free)))
        (λ busy. Triple-said chains options chains.latest_timestamp _ None-IsWork λ now said.
          Triple-pure chains options _
            (λ xs h. (h, delay_from-IsDelay chains options s duration block now busy said)))

  wait_for_next_lem :
      (s : BridgeState) (duration : ℕ) (block : Block)
      → Unfit chains s duration block
      → Triple chains options None
          (wait_for_next chains options s duration block)
          (RoundSpec chains options)
          IsWork
  unfolding wait_for_next
  wait_for_next_lem s duration block unfit =
      Triple-bind chains options _ _ (find_delay_lem s duration block) λ delay.
        Triple-said chains options chains.near_status _ (λ xs h. None-IsWork xs h.0)
          λ _ _.
            Triple-bind chains options {Q = λ _. RoundSpec chains options (waited delay)} _ _
              (Triple-sleep chains options (milliseconds delay) (λ xs h.
                let (n, whole, thousand) =
                  delay-seconds chains options s duration block delay h.1 in
                (s, duration, block, unfit, h.1, n, whole, rw (h.0, thousand))))
              λ _. Triple-pure chains options (waited delay) (λ xs h. h)

  guard_lem :
      (s : BridgeState) (duration : ℕ) (block : Block)
      → should_submit s duration block ≡ true
      → (s.current_height < block.height)
        × ((s.next_valid_at ≡ 0) ⊎ (s.next_timestamp + duration ≤ block.timestamp))
  unfolding should_submit ◌-ℤ◌
  guard_lem s duration block h = ground arith

  unfit_lem :
      (s : BridgeState) (duration : ℕ) (block : Block)
      → should_submit s duration block ≡ false
      → (block.height ≤ s.current_height)
        ⊎ ((s.next_valid_at ≢ 0) × (block.timestamp < s.next_timestamp + duration))
  unfolding should_submit ◌-ℤ◌
  unfit_lem s duration block h = ground arith

  try_round_lem :
      Triple chains options None (try_round chains options) (RoundSpec chains options) IsWork
  unfolding try_round
  try_round_lem = Triple-said chains options chains.bridge_state _ None-IsWork λ s said_state.
      Triple-said chains options (chains.block_hash s.current_height) _ None-IsWork
        λ hash said_hash.
          Triple-said chains options (chains.next_light_client_block hash) _ None-IsWork
            λ block said_block.
              Triple-said chains options chains.replace_duration _ None-IsWork
                λ duration said_duration.
                  Triple-if chains options (should_submit s duration block) _ _
                    (λ go.
                      let (higher, free) = guard_lem s duration block go in
                      submit_lem s duration block (record {
                        said_state = said_state;
                        said_block = (hash, said_hash, said_block);
                        said_duration = said_duration;
                        higher = higher;
                        free = free;
                      }))
                    (λ stay. wait_for_next_lem s duration block (record {
                      said_state = said_state;
                      said_block = (hash, said_hash, said_block);
                      said_duration = said_duration;
                      why = unfit_lem s duration block stay;
                    }))

  -- A round never throws. It ends in one of four ways, and has then done this and no more:
  -- submitted, and it deposited the stake at most once, sent the encoded block once and slept four
  -- minutes, for a block above the client's height that replaces nothing or is newer than the
  -- pending one by the replacement time; exited, likewise with one byte of the block changed and no sleep;
  -- waited, for a block that is not above the client's height or is too new to replace the pending one,
  -- and it slept the delay, and only that; failed, and after a deposit and a submission at most it slept the error
  -- delay.
  pub round_lem :
      (s : State W)
      → (next : Next) × (ys : List Act) × ((round chains options s).0 ≡ ok next)
        × ((round chains options s).1.acts ≡ s.acts ++ ys)
        × RoundSpec chains options next ys
  unfolding round sleep_for
  round_lem s =
      let (ys, q, spec) = try_round_lem.runs s.acts [] s (sym (append-nil s.acts)) refl in
      go (try_round chains options s).0 refl ys q spec
    where
      go :
          (r : Result Next)
          → (try_round chains options s).0 ≡ r
          → (ys : List Act) → (try_round chains options s).1.acts ≡ s.acts ++ ys
          → Case chains options (RoundSpec chains options) IsWork (try_round chains options s).0 ys
          → (next : Next) × (zs : List Act) × ((round chains options s).0 ≡ ok next)
            × ((round chains options s).1.acts ≡ s.acts ++ zs)
            × RoundSpec chains options next zs
      go (ok next) e ys q spec = (next, ys, rw (round, e), rw (round, e) q, rw e at spec)
      go (err x) e ys q spec =
          let pause : Act = sleep (pos (1000 * options.error_delay)) in
          (
            failed,
            ys ++ pause ∷ [],
            rw (round, e),
            rw (round, e) (unfold sleep_for act in rw (q, append_assoc)),
            (ys, rw e at spec, refl),
          )
