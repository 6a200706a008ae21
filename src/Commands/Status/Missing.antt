-- ===== src/Commands/Status/Missing.antt =====
-- The two calls of the status command that leave out an argument, and what comes of them.
use rainbow_bridge.Prelude.{String, ◌≡◌, refl, ◌⊎◌, inl, inr, Option, none, some, Option-cases}
use Prim.Native.String.{◌++◌}
use rainbow_bridge.Prelude.Js.{JsError, Result, ok, err, Result-cases, ok_inj}
use rainbow_bridge.Prelude.Async.{bind-elim}
use rainbow_bridge.Commands.Status.{Verdict, status, unknown_status, given, unreachable}
use rainbow_bridge.Commands.Status.Near.{
  NearArgs, Near, NearStatus, basic_status, asked_status, both, request, init_contracts, set_key_if,
  verified_status, verify_client, verify_prover, verify_keys, ask_node, near_status,
}
use rainbow_bridge.Commands.Status.Eth.{
  Eth, Progress, call, locate, init_eth_contracts, ask_version, check_master, ask_eth,
  basic_eth_status, eth_status,
}

module _ {W : Type 0} (near : Near W) where
  verify_keys-throws :
      (args : NearArgs) (url master sk : String) (s s' : NearStatus) (w : W)
      → ((verify_keys near args url (some (master, sk)) s w).0 ≡ ok s')
      → ⊥
  unfolding verify_keys init_contracts
  verify_keys-throws args url master sk s s' w h =
      bind-elim (near.set_key args.network_id master sk) _ w s' h λ _ w1 _ h1.
        bind-elim (set_key_if near args.network_id (both args.client_account args.client_sk)) _ w1
          s' h1
          λ _ w2 _ h2.
            bind-elim (set_key_if near args.network_id (both args.prover_account args.prover_sk)) _
              w2 s' h2
              λ _ w3 _ h3. bind-elim (near.connect url) _ w3 s' h3 λ _ w4 _ h4.
                bind-elim (verified_status near master) _ w4 s' h4 λ v w5 _ h5.
                  bind-elim (verify_client near (both args.client_account args.client_sk) _) _ w5 s'
                    h5
                    λ s1 w6 _ h6.
                      bind-elim (verify_prover near (both args.prover_account args.prover_sk) s1) _
                        w6 s' h6 λ s2 w7 _ h7. cc

  -- `NearStatus.init` returns only if it has not reached the node, or the master account or its key is
  -- missing, and then without contracts: where the node answers and both are given, it throws.
  pub near_status-returned :
      (args : NearArgs) (s : NearStatus) (w : W)
      → (near_status near args w).0 ≡ ok s
      → (s.contracts ≡ none)
        × ((both args.master_account args.master_sk ≡ none)
            ⊎ (s.network_connection.verdict ≡ Verdict.error))
  unfolding near_status basic_status request verify_keys
  near_status-returned args s w h = elim (Option-cases (given args.node_url)) [
    | inl q ↦ rw (← ok_inj _ s (rw (q, near_status) at h)) (refl, inr refl)
    | inr (url, q) ↦
        asked url (near.fetch_status (url ++ "/status") w).0 refl (rw (q, near_status) at h)
  ]
    where
      Goal : Type 0
      Goal =
          (s.contracts ≡ none)
          × ((both args.master_account args.master_sk ≡ none)
              ⊎ (s.network_connection.verdict ≡ Verdict.error))

      reached :
          (url x last : String) (w' : W)
          → (ask_node near args url ((Verdict.ok, x, last), w')).0 ≡ ok s
          → Goal
      reached url x last w' k = elim (Option-cases (both args.master_account args.master_sk)) [
        | inl q ↦ rw (← ok_inj _ s (rw (q, verify_keys) at k)) (refl, inl q)
        | inr ((master, sk), q) ↦ absurd (
            verify_keys-throws args url master sk (asked_status args url Verdict.ok x last) s w'
              (rw q at k))
      ]

      asked :
          (url : String) (r : Result (String × String))
          → (near.fetch_status (url ++ "/status") w).0 ≡ r
          → (ask_node near args url (request near (url ++ "/status") w)).0 ≡ ok s
          → Goal
      asked url (ok (x, last)) q k = reached url x last _ (rw (q, request) at k)
      asked url (err e) q k = rw (← ok_inj _ s (rw (q, request) at k)) (refl, inr refl)

module _ {W : Type 0} (eth : Eth W) where
  ask_eth-fails :
      (url : String) (sk : Option String) (p : Progress W) → (ask_eth eth url sk p).0 ≡ ok tt → ⊥
  unfolding ask_eth init_eth_contracts
  ask_eth-fails url sk p h = bind-elim (call eth (eth.connect url)) _ p tt h λ chain p1 _ h1.
      bind-elim (ask_version eth url) _ (record p1 { fields = locate eth chain p1.fields }) tt h1
        λ _ p2 _ h2. bind-elim (check_master eth sk) _ p2 tt h2 λ _ p3 _ h3. cc

  ask_eth-throws :
      (url : String) (sk : Option String) (p : Progress W)
      → (e : JsError) × ((ask_eth eth url sk p).0 ≡ err e)
  ask_eth-throws url sk p = elim (Result-cases (ask_eth eth url sk p).0) [
    | inr thrown ↦ thrown
    | inl (u, h) ↦ absurd (ask_eth-fails url sk p h)
  ]

  -- Whatever the chain answers, `EthStatus.init` with the address of a node ends in the state that
  -- the node is not reachable.
  pub eth_status_lem :
      (url sk : Option String) (u : String) (p : Progress W)
      → given url ≡ some u
      → ((eth_status eth url sk p).0 ≡ ok tt)
        × ((eth_status eth url sk p).1.fields.network_location ≡ unknown_status)
        × ((eth_status eth url sk p).1.fields.network_connection
            ≡ status u Verdict.error unreachable)
        × ((eth_status eth url sk p).1.fields.network_last_block ≡ unknown_status)
  unfolding eth_status
  eth_status_lem url sk u p h =
      let (e, thrown) = ask_eth-throws u sk (record p { fields = basic_eth_status eth sk }) in
      rw (h, eth_status) (rw thrown (refl, refl, refl, refl))
