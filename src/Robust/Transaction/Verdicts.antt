-- ===== src/Robust/Transaction/Verdicts.antt =====
-- How `signAndSendTransaction` ends, and how often it sends.
use rainbow_bridge.Prelude.{
  ℕ, zero, suc, ◌+◌, ◌≤◌, ◌≡◌, refl, ap, ◌∙◌, String, false, ◌||◌, Option, none, some, List, [],
  ◌∷◌, arith, length, length-append,
}
use rainbow_bridge.Prelude.Js.{Result, ok, err, type_error}
use rainbow_bridge.Robust.Transaction.{
  TxResult, Signed, Provider, Session, Verdict, is_some, return, throw_error, next_round, stop,
  poll, broadcast_last, sign_new, clear_resend, submit_as, submit, judge, hash_of, settle,
  one_round, send_rounds, sign_and_send_transaction,
}

abbrev pub Succeeded : TxResult → Type 0
Succeeded result = (v : String) × (result.success_value ≡ some v)

-- Neither a success nor a failure: the transaction is still under way.
abbrev pub IsUndecided : TxResult → Type 0
IsUndecided result = (result.success_value ≡ none) × (result.failure ≡ none)

module _ {W : Type 0} (provider : Provider W) where
  returned : (r r' : TxResult) → return r ≡ return r' → r' ≡ r
  returned r r' h = cc

  ok_of : (r r' : TxResult) → Path (Result TxResult) (ok r) (ok r') → return r ≡ return r'
  ok_of r r' h = cc

  judge-return :
      (found : Option TxResult) (s : Session W) (result : TxResult)
      → (judge provider found s).0 ≡ return result
      → Succeeded result
  unfolding judge
  judge-return none s result h = cc
  judge-return (some r) s result h = go r.success_value r.failure refl refl
    where
      go : (v f : Option String) → r.success_value ≡ v → r.failure ≡ f → Succeeded result
      go (some v) f a b =
          (v, ap (λ (t : TxResult). t.success_value) (returned r result (rw (a, judge) at h)) ∙ a)
      go none none a b = absurd (ground (arith, a, b, h))
      go none (some text) a b = absurd (ground (arith, a, b, h))

  one_round-return :
      (s : Session W) (result : TxResult)
      → (one_round provider s).0 ≡ return result
      → Succeeded result
  unfolding one_round settle
  one_round-return s result h = go (submit provider s).0 refl
    where
      go : (r : Result (Unit {0})) → (submit provider s).0 ≡ r → Succeeded result
      go (err e) q = cc (rw (q, one_round) at h)
      go (ok u) q = judge-return _ _ result (rw (q, one_round) at h)

  -- A call returns a result only if it is one of success.
  pub send_rounds-ok :
      (rounds : ℕ) (s : Session W) (result : TxResult)
      → (send_rounds provider rounds s).0 ≡ ok result
      → Succeeded result
  unfolding send_rounds
  send_rounds-ok zero s result h = cc
  send_rounds-ok (suc rounds) s result h =
      go (one_round provider s).0 refl
        (λ k. send_rounds-ok rounds (one_round provider s).1 result k)
    where
      go :
          (v : Verdict)
          → (one_round provider s).0 ≡ v
          → ((send_rounds provider rounds (one_round provider s).1).0 ≡ ok result
              → Succeeded result)
          → Succeeded result
      go (return r) q ih = one_round-return s result (q ∙ ok_of r result (rw (q, send_rounds) at h))
      go (throw_error e) q ih = cc (rw (q, send_rounds) at h)
      go stop q ih = cc (rw (q, send_rounds) at h)
      go next_round q ih = ih (rw (q, send_rounds) at h)

  sent-broadcast :
      (nonce : ℕ) (signed : Signed) (s : Session W)
      → length (broadcast_last provider nonce signed s).1.sent ≡ length s.sent + 1
  unfolding broadcast_last
  sent-broadcast nonce signed s = omega (arith, length-append s.sent ((nonce, signed.encoded) ∷ []))

  sent-clear : (x : Result (Unit {0}) × Session W) → (clear_resend provider x).1.sent ≡ x.1.sent
  sent-clear (ok u, s) = refl
  sent-clear (err e, s) = refl

  sent-submit : (s : Session W) → length (submit provider s).1.sent ≤ length s.sent + 1
  unfolding submit submit_as sign_new
  sent-submit s = grind (arith, sent-broadcast, sent-clear)

  sent-settle : (s : Session W) → (settle provider s).1.sent ≡ s.sent
  unfolding settle judge
  sent-settle s = ground arith

  sent-one_round : (s : Session W) → length (one_round provider s).1.sent ≤ length s.sent + 1
  unfolding one_round
  sent-one_round s = go (submit provider s).0 refl
    where
      go :
          (r : Result (Unit {0}))
          → (submit provider s).0 ≡ r
          → length (one_round provider s).1.sent ≤ length s.sent + 1
      go (ok u) q = rw (q, one_round, sent-settle) (sent-submit s)
      go (err e) q = rw (q, one_round) (sent-submit s)

  sent-send_rounds :
      (rounds : ℕ) (s : Session W)
      → length (send_rounds provider rounds s).1.sent ≤ length s.sent + rounds
  unfolding send_rounds
  sent-send_rounds zero s = omega arith
  sent-send_rounds (suc rounds) s =
      go (one_round provider s).0 refl (sent-send_rounds rounds (one_round provider s).1)
    where
      one : length (one_round provider s).1.sent ≤ length s.sent + 1
      one = sent-one_round s

      go :
          (v : Verdict)
          → (one_round provider s).0 ≡ v
          → length (send_rounds provider rounds (one_round provider s).1).1.sent
            ≤ length (one_round provider s).1.sent + rounds
          → length (send_rounds provider (suc rounds) s).1.sent ≤ length s.sent + suc rounds
      go (return r) q ih = rw (q, send_rounds) (omega (arith, one))
      go (throw_error e) q ih = rw (q, send_rounds) (omega (arith, one))
      go stop q ih = rw (q, send_rounds) (omega (arith, one))
      go next_round q ih = rw (q, send_rounds) (omega (arith, one))

  -- A call hands a transaction to the network at most ten times.
  pub sending_at_most_ten :
      (nonce : ℕ) (w : W) → length (sign_and_send_transaction provider nonce w).1.sent ≤ 10
  unfolding sign_and_send_transaction
  sending_at_most_ten nonce w = sent-send_rounds 10 _

  -- The result that a call returns is that of a transaction which succeeded.
  pub sending-Succeeded :
      (nonce : ℕ) (w : W) (result : TxResult)
      → (sign_and_send_transaction provider nonce w).0 ≡ ok result
      → Succeeded result
  unfolding sign_and_send_transaction
  sending-Succeeded nonce w result h = send_rounds-ok 10 _ result h

  module _
      (undecided : (h : List ℕ) (w : W)
        → (r : TxResult) × ((provider.tx_status h w).0 ≡ ok r) × IsUndecided r) where
    poll-IsUndecided :
        (rounds j : ℕ) (h : List ℕ) (found : Option TxResult) (msg : Option String) (w : W)
        → (r : TxResult) × ((poll provider (suc rounds) j h found msg w).0 ≡ some r) × IsUndecided r
    unfolding poll
    poll-IsUndecided zero j h found msg w =
        let (r, answer, (a, b)) = undecided h w in
        let pending : (is_some r.success_value || is_some r.failure) ≡ false = rw (a, b) in
        (r, rw (answer, poll) (rw pending), (a, b))
    poll-IsUndecided (suc rounds) j h found msg w =
        let (r, answer, (a, b)) = undecided h w in
        let (r', found', u) =
          poll-IsUndecided rounds (j + 1) h (some r) msg (provider.tx_status h w).1 in
        let pending : (is_some r.success_value || is_some r.failure) ≡ false = rw (a, b) in
        (r', rw (answer, poll) (rw pending found'), u)

  -- Where the node still answers, after the ten questions, that a transaction is under way, with
  -- neither a success nor a failure, the round throws a TypeError: the text of the failure is
  -- `undefined`. The transaction is not sent again.
  pub settle_undecided :
      (s : Session W)
      → ((h : List ℕ) (w : W)
          → (r : TxResult) × ((provider.tx_status h w).0 ≡ ok r) × IsUndecided r)
      → (settle provider s).0
        ≡ throw_error (type_error "Cannot read property 'includes' of undefined")
  unfolding settle judge
  settle_undecided s undecided =
      let (r, found, (a, b)) =
        poll-IsUndecided undecided 9 0 (hash_of provider s.last) none s.error_msg s.world in
      rw (settle, found, judge) (rw (a, b))
