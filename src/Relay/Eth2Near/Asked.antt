-- ===== src/Relay/Eth2Near/Asked.antt =====
-- The predicate's retries, and what a batch consists of.
use rainbow_bridge.Prelude.{
  ℕ, zero, suc, ◌≡◌, refl, ap, ◌⊎◌, inl, inr, Bool, String, Option, none, some, List, [], ◌∷◌, map,
  length,
}
use rainbow_bridge.Prelude.Int.{ℤ, pos, ◌+ℤ◌, ◌-ℤ◌}
use rainbow_bridge.Prelude.Js.{JsError, Result, ok, err, Result-cases}
use rainbow_bridge.Prelude.Async.{Async, catch, pure}
use rainbow_bridge.Client.EthBlocks.{get_eth_block}
use rainbow_bridge.Relay.Eth2Near.{
  Relay, Chains, find_hash, numbers_from, try_parse_block, get_parse_block, parse_all, predicate,
}
use rainbow_bridge.Relay.Eth2Near.Header.{ParsedBlock, all_ok}

module _ {W EthBlock : Type 0} (chains : Chains W EthBlock) (relay : Relay)
    (make_args : Option ParsedBlock → Result (List ℕ)) where
  -- Within this many tries, the chain has the block with this number, and the client says its hashes;
  -- the answer is whether the block's is one of them. Before, each try may find no block, or fail.
  pub data Settles (number : ℤ) : ℕ → W → Bool → W → Type 0 where
    answered :
        {n : ℕ} {w w1 w2 : W} {block : EthBlock} {known : List String}
        → get_eth_block chains.post chains.sleep number w ≡ (ok (some block), w1)
        → chains.known_hashes number w1 ≡ (ok known, w2)
        → Settles number (suc n) w (find_hash known (chains.block_hash_of block)) w2
    not_ready :
        {n : ℕ} {w w1 w' : W} {b : Bool}
        → get_eth_block chains.post chains.sleep number w ≡ (ok none, w1)
        → Settles number n (chains.sleep 3000 w1) b w'
        → Settles number (suc n) w b w'
    no_block :
        {n : ℕ} {w w1 w' : W} {b : Bool} (e : JsError)
        → get_eth_block chains.post chains.sleep number w ≡ (err e, w1)
        → Settles number n w1 b w'
        → Settles number (suc n) w b w'
    no_hashes :
        {n : ℕ} {w w1 w2 w' : W} {b : Bool} {block : EthBlock} (e : JsError)
        → get_eth_block chains.post chains.sleep number w ≡ (ok (some block), w1)
        → chains.known_hashes number w1 ≡ (err e, w2)
        → Settles number n w2 b w'
        → Settles number (suc n) w b w'

  pub predicate-answer :
      (client value : ℤ) (n : ℕ) (w : W) (b : Bool) (w' : W)
      → Settles (client -ℤ value) n w b w'
      → predicate chains relay make_args n client value w ≡ (some b, w')
  unfolding predicate
  predicate-answer client value _ w _ w' (answered e e') =
      rw (e, predicate) (rw e (rw e' (rw e (rw e' refl))))
  predicate-answer client value _ w b w' (not_ready e s) =
      rw (e, predicate) (rw e (predicate-answer client value _ _ b w' s))
  predicate-answer client value _ w b w' (no_block x e s) =
      rw (e, predicate) (rw e (predicate-answer client value _ _ b w' s))
  predicate-answer client value _ w b w' (no_hashes x e e' s) =
      rw (e, predicate) (rw e (rw e' (rw e (rw e' (predicate-answer client value _ _ b w' s)))))

  -- The blocks from this number on, one after the other; one that cannot be got is `none`.
  pub data Parsed : ℤ → List (Option ParsedBlock) → W → W → Type 0 where
    none_left : {i : ℤ} {w : W} → Parsed i [] w w
    parsed :
        {i : ℤ} {b : Option ParsedBlock} {bs : List (Option ParsedBlock)} {w w1 w2 : W}
        → get_parse_block chains relay make_args i w ≡ (ok b, w1)
        → Parsed (i +ℤ pos 1) bs w1 w2
        → Parsed i (b ∷ bs) w w2

  -- The actions for blocks, in order.
  pub data Made : List (Option ParsedBlock) → List (List ℕ) → Type 0 where
    all_made : Made [] []
    made :
        {b : Option ParsedBlock} {bs : List (Option ParsedBlock)} {bytes : List ℕ}
        {more : List (List ℕ)}
        → make_args b ≡ ok bytes
        → Made bs more
        → Made (b ∷ bs) (bytes ∷ more)

  -- A block of the list has no action.
  pub data Unmade : List (Option ParsedBlock) → Type 0 where
    here :
        {b : Option ParsedBlock} {bs : List (Option ParsedBlock)} (e : JsError)
        → make_args b ≡ err e
        → Unmade (b ∷ bs)
    later : {b : Option ParsedBlock} {bs : List (Option ParsedBlock)} → Unmade bs → Unmade (b ∷ bs)

  caught-ok :
      {A : Type 0} (m : Async W A) (a : A) (w : W)
      → (b : A) × (w' : W) × (catch m (λ e. pure a) w ≡ (ok b, w'))
  caught-ok {A} m a w = go (m w).0 (m w).1 refl
    where
      go :
          (r : Result A) (w' : W)
          → m w ≡ (r, w')
          → (b : A) × (w'' : W) × (catch m (λ e. pure a) w ≡ (ok b, w''))
      go (ok b) w' q = (b, w', rw q refl)
      go (err e) w' q = (a, w', rw q refl)

  get_parse_block-ok :
      (i : ℤ) (w : W)
      → (b : Option ParsedBlock) × (w' : W) × (get_parse_block chains relay make_args i w
          ≡ (ok b, w'))
  unfolding get_parse_block
  get_parse_block-ok i w = caught-ok (try_parse_block chains relay make_args i) none w

  pub parse_all-Parsed :
      (n : ℕ) (i : ℤ) (w : W)
      → (bs : List (Option ParsedBlock)) × (w' : W) × (parse_all chains relay make_args
            (numbers_from i n)
            w
          ≡ (ok bs, w'))
        × (length bs ≡ n)
        × Parsed i bs w w'
  unfolding parse_all numbers_from
  parse_all-Parsed zero i w = ([], w, refl, refl, none_left)
  parse_all-Parsed (suc n) i w =
      let (b, w1, e) = get_parse_block-ok i w in
      let (bs, w2, e', counted, rest) = parse_all-Parsed n (i +ℤ pos 1) w1 in
      (b ∷ bs, w2, rw (e, parse_all) (rw (e', parse_all) refl), ap suc counted, parsed e rest)

  pub all_ok-cases :
      (bs : List (Option ParsedBlock))
      → ((actions : List (List ℕ)) × (all_ok (map make_args bs) ≡ ok actions) × Made bs actions)
        ⊎ ((e : JsError) × (all_ok (map make_args bs) ≡ err e) × Unmade bs)
  unfolding all_ok
  all_ok-cases [] = inl ([], refl, all_made)
  all_ok-cases (b ∷ bs) = elim (Result-cases (make_args b)) [
    | inr (e, q) ↦ inr (e, rw q refl, here e q)
    | inl (bytes, q) ↦ elim (all_ok-cases bs) [
      | inl (actions, q', all) ↦ inl (bytes ∷ actions, rw (q, q') refl, made q all)
      | inr (e, q', missing) ↦ inr (e, rw (q, q') refl, later missing)
    ]
  ]
