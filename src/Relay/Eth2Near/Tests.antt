-- ===== src/Relay/Eth2Near/Tests.antt =====
-- The theorems about the relay to NEAR, at a chain with a fork above block 3.
use rainbow_bridge.Prelude.{
  ℕ, ◌+◌, ◌*◌, ◌≤◌, ◌≡◌, refl, zero, suc, Bool, String, Option, none, some, List, [], ◌∷◌, length,
  if◌then◌else◌,
}
use rainbow_bridge.Prelude.Int.{ℤ, pos, ◌≤ℤ◌, ltb_ℤ, int_laws}
use rainbow_bridge.Prelude.Js.{Result, ok, err, error}
use rainbow_bridge.Borsh.Value.{Value}
use rainbow_bridge.Relay.Eth2Near.{
  Relay, initialize, max_gas_per_block, Chains, find_hash, end_block, numbers_between, State,
}
use rainbow_bridge.Relay.Eth2Near.Header.{ParsedBlock}
use rainbow_bridge.Relay.Eth2Near.Batch.{batch_fits}

abbrev relay : Relay
relay = record { gas_per_transaction = 72_000_000_000_000; total_submit_block = pos 4 }

accepted : initialize 72_000_000_000_000 (some (pos 4)) ≡ ok relay
unfolding initialize ltb_ℤ
accepted = refl

batch_fits_example :
    (1 ≤ length (numbers_between (pos 20) (end_block (pos 4) (pos 20) (pos 22))))
    × (end_block (pos 4) (pos 20) (pos 22) ≤ℤ pos 22)
    × (length (numbers_between (pos 20) (end_block (pos 4) (pos 20) (pos 22))) * 72_000_000_000_000
        ≤ max_gas_per_block)
batch_fits_example =
    batch_fits 72_000_000_000_000 (pos 4) (pos 20) (pos 22) relay accepted (omega int_laws)
      (omega int_laws)

abbrev parsed : ParsedBlock
parsed = record { header_rlp = ""; elements = []; merkle_proofs = []; proof_length = 0 }

-- The client knows the chain's hashes up to block 3. Its first answer, and the node's first, are errors:
-- the world is 0 then.
abbrev chains : Chains ℕ ℤ
chains = record {
  last_block_number = λ w. (ok 5, w);
  get_block_number = λ w. (ok 9, w);
  block_hash_of = λ block. "a";
  known_hashes = λ number w. elim w [
    | zero ↦ (err (error "timeout"), 1)
    | suc v ↦ (ok (if ltb_ℤ (pos 3) number then [] else "a" ∷ []), suc v)
  ];
  post = λ number w. (ok (some number), w);
  block_to_rlp = λ block w. (ok "", w);
  ethashproof = λ rlp w. (ok parsed, w);
  send = λ actions w. (ok tt, w + 1);
  sleep = λ ms w. w;
}

abbrev no_args : Option ParsedBlock → Result (List ℕ)
no_args block = ok []

abbrev start : State ℕ
start = record { world = 0; previous = none }

-- The blocks up to 3 are common.
abbrev common : ℤ → Bool
common number = find_hash (if ltb_ℤ (pos 3) number then [] else "a" ∷ []) "a"

abbrev same : String → ℕ → String
same text n = text

abbrev no_bytes : Value → Result (List ℕ)
no_bytes v = ok (7 ∷ [])
