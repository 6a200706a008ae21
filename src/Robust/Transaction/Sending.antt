-- ===== src/Robust/Transaction/Sending.antt =====
-- What `signAndSendTransaction` hands to the network, whatever the provider answers.
use rainbow_bridge.Prelude.{
  ℕ, zero, suc, ◌+◌, ◌≤◌, ◌<◌, ◌≡◌, refl, ◌⊎◌, inl, inr, String, Bool, true, false, Option, none,
  some, List, [], ◌∷◌, ◌++◌, arith, All, All-snoc, All-map,
}
use rainbow_bridge.Prelude.Js.{Result, ok, err}
use rainbow_bridge.Robust.Transaction.{
  TxResult, Signed, Provider, Session, Verdict, return, throw_error, next_round, stop,
  broadcast_last, sign_new, clear_resend, submit_as, submit, judge, settle, one_round, send_rounds,
  sign_and_send_transaction,
}

abbrev Sending : Type 0
Sending = ℕ × List ℕ

-- The second of two sendings has a later nonce, or is the first one again.
abbrev pub LaterOrSame : Sending → Sending → Type 0
LaterOrSame x y = (x.0 < y.0) ⊎ (x ≡ y)

-- Every sending is followed by sendings with later nonces and by repetitions of itself only.
abbrev pub OneEach : List Sending → Type 0
OneEach [] = Unit
OneEach (x ∷ xs) = All (LaterOrSame x) xs × OneEach xs

OneEach-snoc :
    (xs : List Sending) (y : Sending)
    → OneEach xs
    → All (λ x. LaterOrSame x y) xs
    → OneEach (xs ++ y ∷ [])
OneEach-snoc [] y h k = (tt, tt)
OneEach-snoc (x ∷ xs) y (hx, h) (kx, k) =
    (All-snoc (LaterOrSame x) xs y hx kx, OneEach-snoc xs y h k)

module _ {W : Type 0} where
  -- The sendings, none with a nonce above the key's.
  abbrev pub IsOrderly : Session W → Type 0
  IsOrderly s = OneEach s.sent × All (λ x. x.0 ≤ s.nonce) s.sent

  -- The last signed transaction has the key's nonce, and no other was sent with it.
  abbrev pub Holds : Session W → Type 0
  Holds s =
      (signed : Signed) × (s.last ≡ some signed)
      × All (λ x. LaterOrSame x (s.nonce, signed.encoded)) s.sent

  abbrev pub Inv : Session W → Type 0
  Inv s = IsOrderly s × (s.resend_last ≡ true → Holds s)

  -- After a submission: what it sent can be sent again.
  abbrev Submitted : Result (Unit {0}) × Session W → Type 0
  Submitted (ok u, s) = IsOrderly s × Holds s × (s.resend_last ≡ false)
  Submitted (err e, s) = Inv s

  module _ (provider : Provider W) where
    -- A broadcast with the key's nonce, of the transaction that is held.
    broadcast-IsOrderly :
        (s : Session W) (signed : Signed)
        → IsOrderly s
        → s.last ≡ some signed
        → All (λ x. LaterOrSame x (s.nonce, signed.encoded)) s.sent
        → IsOrderly (broadcast_last provider s.nonce signed s).1
          × Holds (broadcast_last provider s.nonce signed s).1
    unfolding broadcast_last
    broadcast-IsOrderly s signed (each, below) held fresh =
        let this : Sending = (s.nonce, signed.encoded) in
        (
          (
            OneEach-snoc s.sent this each fresh,
            All-snoc (λ x. x.0 ≤ s.nonce) s.sent this below (omega arith),
          ),
          (signed, held, All-snoc (λ x. LaterOrSame x this) s.sent this fresh (inr refl)),
        )

    broadcast-Submitted :
        (s : Session W) (signed : Signed) (r : Result (Unit {0}))
        → IsOrderly s
        → s.last ≡ some signed
        → All (λ x. LaterOrSame x (s.nonce, signed.encoded)) s.sent
        → s.resend_last ≡ false
        → Submitted (r, (broadcast_last provider s.nonce signed s).1)
    broadcast-Submitted s signed (ok u) o held fresh quiet =
        let (o', h) = broadcast-IsOrderly s signed o held fresh in
        (o', h, unfold broadcast_last in quiet)
    broadcast-Submitted s signed (err e) o held fresh quiet =
        let (o', h) = broadcast-IsOrderly s signed o held fresh in (o', λ _. h)

    -- A nonce above the key's is new.
    older : (s : Session W) → IsOrderly s → All (λ x. x.0 ≤ s.nonce + 1) s.sent
    older s (each, below) =
        All-map (λ x. x.0 ≤ s.nonce) (λ x. x.0 ≤ s.nonce + 1) s.sent (λ x h. omega arith) below

    sign_new-Submitted :
        (s : Session W) → IsOrderly s → s.resend_last ≡ false → Submitted (sign_new provider s)
    unfolding sign_new
    sign_new-Submitted s (each, below) quiet = go (provider.status s.world).0 refl
      where
        later : (signed : Signed) → All (λ x. LaterOrSame x (s.nonce + 1, signed.encoded)) s.sent
        later signed =
            All-map (λ x. x.0 ≤ s.nonce) (λ x. LaterOrSame x (s.nonce + 1, signed.encoded)) s.sent
              (λ x h. inl (omega arith)) below

        signing :
            (block_hash : String) (r : Result Signed)
            → (provider.sign (s.nonce + 1) block_hash (provider.status s.world).1).0 ≡ r
            → (provider.status s.world).0 ≡ ok block_hash
            → Submitted (sign_new provider s)
        signing block_hash (err e) q a =
            rw (a, sign_new) (rw q ((each, older s (each, below)), λ r. cc))
        signing block_hash (ok signed) q a =
            let ready : Session W = record s {
              world = (provider.sign (s.nonce + 1) block_hash (provider.status s.world).1).1;
              nonce = s.nonce + 1;
              last = some signed;
            } in
            rw (a, sign_new)
              (rw q (
                broadcast-Submitted ready signed
                  (broadcast_last provider ready.nonce signed ready).0 (each, older s (each, below))
                  refl (later signed) quiet))

        go : (r : Result String) → (provider.status s.world).0 ≡ r → Submitted (sign_new provider s)
        go (err e) a = rw (a, sign_new) ((each, below), λ r. cc)
        go (ok block_hash) a =
            signing block_hash
              (provider.sign (s.nonce + 1) block_hash (provider.status s.world).1).0 refl a

    clear-Submitted :
        (x : Result (Unit {0}) × Session W)
        → IsOrderly x.1
        → Holds x.1
        → Submitted (clear_resend provider x)
    clear-Submitted (ok u, s) o h = (o, h, refl)
    clear-Submitted (err e, s) o h = (o, λ _. h)

    submit_as-Submitted :
        (b : Bool) (s : Session W) → s.resend_last ≡ b → Inv s → Submitted (submit_as provider b s)
    unfolding submit_as
    submit_as-Submitted false s quiet (o, pending) = sign_new-Submitted s o quiet
    submit_as-Submitted true s again (o, pending) =
        let (signed, held, fresh) = pending again in
        let (o', h) = broadcast-IsOrderly s signed o held fresh in
        rw (held, submit_as) (clear-Submitted (broadcast_last provider s.nonce signed s) o' h)

    submit-Submitted : (s : Session W) → Inv s → Submitted (submit provider s)
    unfolding submit
    submit-Submitted s inv = submit_as-Submitted s.resend_last s refl inv

    judge-Inv :
        (result : Option TxResult) (s : Session W)
        → IsOrderly s
        → Holds s
        → s.resend_last ≡ false
        → Inv (judge provider result s).1
    unfolding judge
    judge-Inv none s o h quiet = (o, λ _. h)
    judge-Inv (some result) s o h quiet = go result.success_value result.failure refl refl
      where
        go :
            (v f : Option String)
            → result.success_value ≡ v
            → result.failure ≡ f
            → Inv (judge provider (some result) s).1
        go (some v) f a b = rw (a, judge) (o, λ r. h)
        go none none a b = rw (a, judge) (rw b (o, λ r. h))
        go none (some text) a b = rw (a, judge) (rw b (o, λ r. h))

    settle-Inv :
        (s : Session W) → IsOrderly s → Holds s → s.resend_last ≡ false → Inv (settle provider s).1
    unfolding settle
    settle-Inv s o h quiet = judge-Inv _ _ o h quiet

    one_round-Inv : (s : Session W) → Inv s → Inv (one_round provider s).1
    unfolding one_round
    one_round-Inv s inv = go (submit provider s) refl (submit-Submitted s inv)
      where
        go :
            (r : Result (Unit {0}) × Session W)
            → submit provider s ≡ r
            → Submitted r
            → Inv (one_round provider s).1
        go (ok u, s') q (o, h, quiet) = rw (q, one_round) (rw q (settle-Inv s' o h quiet))
        go (err e, s') q inv' = rw (q, one_round) (rw q inv')

    send_rounds-Inv : (rounds : ℕ) (s : Session W) → Inv s → Inv (send_rounds provider rounds s).1
    unfolding send_rounds
    send_rounds-Inv zero s inv = inv
    send_rounds-Inv (suc rounds) s inv =
        go (one_round provider s).0 refl (λ s'. send_rounds-Inv rounds s')
      where
        Goal : Type 0
        Goal = Inv (send_rounds provider (suc rounds) s).1

        go :
            (v : Verdict)
            → (one_round provider s).0 ≡ v
            → ((s' : Session W) → Inv s' → Inv (send_rounds provider rounds s').1)
            → Goal
        go (return result) q ih = rw (q, send_rounds) (one_round-Inv s inv)
        go (throw_error e) q ih = rw (q, send_rounds) (one_round-Inv s inv)
        go stop q ih = rw (q, send_rounds) (one_round-Inv s inv)
        go next_round q ih = rw (q, send_rounds) (ih (one_round provider s).1 (one_round-Inv s inv))

    -- Whatever the provider answers, a call never sends two different transactions with one nonce:
    -- what follows a sending are sendings with later nonces and repetitions of the same bytes.
    pub sending-OneEach :
        (nonce : ℕ) (w : W) → OneEach (sign_and_send_transaction provider nonce w).1.sent
    unfolding sign_and_send_transaction
    sending-OneEach nonce w = (send_rounds-Inv 10 _ ((tt, tt), λ r. cc)).0.0
