-- ===== src/Relay/Near2Eth/Runs.antt =====
-- The acts of a whole run of the relay to Ethereum, as the traces of a small automaton.
use rainbow_bridge.Prelude.{ℕ, ◌*◌, ◌≡◌, refl, ◌⊎◌, inl, inr, List, [], ◌∷◌, ◌++◌}
use rainbow_bridge.Prelude.Int.{ℤ, pos}
use rainbow_bridge.Prelude.Js.{ok}
use rainbow_bridge.Relay.Near2Eth.{
  Options, Act, deposit, add_block, sleep, Chains, State, Next, submitted, waited, exited, failed,
  round,
}
use rainbow_bridge.Relay.Near2Eth.Rounds.{IsStake, IsSubmission, IsWork, RoundSpec, round_lem}

-- Whether the relay has deposited the stake or sent a block since its last sleep.
pub data Phase : Type 0 where
  rested staked sent : Phase

-- The acts that each phase allows. After a deposit or a block the relay sleeps four minutes or the
-- error delay.
pub data Allowed (options : Options) : Phase → Act → Phase → Type 0 where
  deposits : {amount price : ℕ} → Allowed options rested (deposit amount price) staked
  sends : {bs : List ℕ} {price : ℕ} → Allowed options rested (add_block bs price) sent
  sends_staked : {bs : List ℕ} {price : ℕ} → Allowed options staked (add_block bs price) sent
  waits : {ms : ℤ} → Allowed options rested (sleep ms) rested
  pauses : Allowed options sent (sleep (pos 240000)) rested
  gives_up : {p : Phase} → Allowed options p (sleep (pos (1000 * options.error_delay))) rested

pub data Trace (options : Options) : Phase → List Act → Phase → Type 0 where
  done : {p : Phase} → Trace options p [] p
  next :
      {p q r : Phase} {a : Act} {xs : List Act}
      → Allowed options p a q
      → Trace options q xs r
      → Trace options p (a ∷ xs) r

-- A round that does not leave the process is followed by another.
abbrev pub GoesOn : Next → Type 0
GoesOn exited = ⊥
GoesOn n = Unit

-- The states from which a round starts, after the state `s`. Between two rounds the chains change as
-- they like.
pub data Reach {W : Type 0} (chains : Chains W) (options : Options) (s : State W)
    : State W → Type 0 where
  started : Reach chains options s s
  again :
      {t : State W} (n : Next) (w : W)
      → Reach chains options s t
      → (round chains options t).0 ≡ ok n
      → GoesOn n
      → Reach chains options s (record { world = w; acts = (round chains options t).1.acts })

module _ (options : Options) where
  Trace-append :
      {p q r : Phase} {xs ys : List Act}
      → Trace options p xs q
      → Trace options q ys r
      → Trace options p (xs ++ ys) r
  Trace-append done u = u
  Trace-append (next a t) u = next a (Trace-append t u)

  abbrev After : (Phase → Type 0) → List Act → Type 0
  After P xs = (p : Phase) × P p × Trace options rested xs p

  -- A deposit may come first.
  stake-After : (xs : List Act) → IsStake xs → After (λ p. (p ≡ rested) ⊎ (p ≡ staked)) xs
  stake-After xs (inl e) = (rested, inl refl, rw e done)
  stake-After xs (inr (amount, price, e)) = (staked, inr refl, rw e (next deposits done))

  submission-Trace :
      (bs : List ℕ) (xs : List Act) → IsSubmission bs xs → Trace options rested xs sent
  submission-Trace bs xs (ds, price, stake, e) = go (stake-After ds stake)
    where
      go : After (λ p. (p ≡ rested) ⊎ (p ≡ staked)) ds → Trace options rested xs sent
      go (p, inl q, t) = rw e (Trace-append t (rw q (next sends done)))
      go (p, inr q, t) = rw e (Trace-append t (rw q (next sends_staked done)))

  work-After : (xs : List Act) → IsWork xs → After (λ p. Unit) xs
  work-After xs (inl stake) = let (p, _, t) = stake-After xs stake in (p, tt, t)
  work-After xs (inr (bs, submission)) = (sent, tt, submission-Trace bs xs submission)

  abbrev pub Ended : Next → Phase
  Ended exited = sent
  Ended n = rested

  round-Trace :
      {W : Type 0} (chains : Chains W) (n : Next) (ys : List Act)
      → RoundSpec chains options n ys
      → Trace options rested ys (Ended n)
  round-Trace chains submitted ys (valid, s, duration, block, sub, pre, submission, e) =
      rw e (Trace-append (submission-Trace block.encoded pre submission) (next pauses done))
  round-Trace chains (waited delay) ys (s, duration, block, unfit, is_delay, n, whole, e) =
      rw e (next waits done)
  round-Trace chains exited ys (invalid, s, duration, block, sub, bs, corrupted, submission) =
      submission-Trace bs ys submission
  round-Trace chains failed ys (pre, work, e) =
      let (p, _, t) = work-After pre work in rw e (Trace-append t (next gives_up done))

  module _ {W : Type 0} (chains : Chains W) (s : State W) (fresh : s.acts ≡ []) where
    round-after :
        (t : State W)
        → Trace options rested t.acts rested
        → (n : Next) × ((round chains options t).0 ≡ ok n)
          × Trace options rested (round chains options t).1.acts (Ended n)
    round-after t trace =
        let (n, ys, e, q, spec) = round_lem chains options t in
        (n, e, rw q (Trace-append trace (round-Trace chains n ys spec)))

    rests : (n : Next) → GoesOn n → Ended n ≡ rested
    rests submitted g = refl
    rests (waited delay) g = refl
    rests exited g = absurd g
    rests failed g = refl

    Reach-Trace : (t : State W) → Reach chains options s t → Trace options rested t.acts rested
    Reach-Trace t started = rw fresh done
    Reach-Trace t (again {t = u} n w reach e goes_on) =
        let (m, f, trace) = round-after u (Reach-Trace u reach) in
        let same : m ≡ n = cc in rw (same, rests n goes_on) at trace

    -- However the chains answer and change between the rounds, the acts of a run, from its start to
    -- the end of any round, follow the automaton: a deposit of the stake is followed by a block, or by
    -- the error delay, a block by four minutes or the error delay, and only a run that leaves
    -- the process ends otherwise, right after a block.
    pub run-Trace :
        (t : State W)
        → Reach chains options s t
        → (n : Next) × ((round chains options t).0 ≡ ok n)
          × Trace options rested (round chains options t).1.acts (Ended n)
    run-Trace t reach = round-after t (Reach-Trace t reach)
