-- ===== src/Borsh/Schemas.antt =====
-- The schemas of the contracts on NEAR: `borshSchema` of
-- eth2near/eth2near-block-relay/eth-on-near-client.js and of eth-on-near-prover.js, and the
-- `hexToBuffer` and `readerToHex` of utils/borsh.js. web3's `hexToBytes` and `bytesToHex` are parameters.
use rainbow_bridge.Prelude.{ℕ, ◌^◌, ◌<◌, ◌≡◌, String, List, [], ◌∷◌, some, All, length}
use rainbow_bridge.Prelude.Js.{Result, ok, ◌>>=◌}
use rainbow_bridge.Borsh.Value.{Value, str, arr, Items, nil, cons, count, IsByte}
use rainbow_bridge.Borsh.Reader.{Read, read_fixed_array}
use rainbow_bridge.Borsh.Reader.At.{Takes-map, read_buffer-Takes_at}
use rainbow_bridge.Borsh.Codec.{
  Library, Schema, u8, u64, boolean, string, array, named, struct, option, function, serialize,
  deserialize,
}
use rainbow_bridge.Borsh.Codec.Laws.{LibraryLaws, Fits, FitsFunction, AllItems}
use rainbow_bridge.Borsh.Codec.RoundTrip.{deserialize-serialize}

module _ (hex_to_bytes : Value → Result (List ℕ)) (bytes_to_hex : List ℕ → String) where
  unfoldable pub hex_to_buffer : Value → Result (List ℕ)
  hex_to_buffer hex = hex_to_bytes hex

  unfoldable pub reader_to_hex : ℕ → Read Value
  reader_to_hex len r = do (bs, r') ← read_fixed_array len r; ok (str (bytes_to_hex bs), r')

  -- A field of type 'bool' never gets to the schema's entry for 'bool', which is left out.
  abbrev pub client_schema : Schema
  client_schema =
      (
        "initInput",
        struct (
            ("validate_ethash", boolean)
            ∷ ("dags_start_epoch", u64)
            ∷ ("dags_merkle_roots", array (named "H128"))
            ∷ ("first_header", array u8)
            ∷ ("hashes_gc_threshold", u64)
            ∷ ("finalized_gc_threshold", u64)
            ∷ ("num_confirmations", u64)
            ∷ ("trusted_signer", named "?AccountId")
            ∷ []),
      )
      ∷ ("dagMerkleRootInput", struct (("epoch", u64) ∷ []))
      ∷ (
        "addBlockHeaderInput",
        struct (
            ("block_header", array u8)
            ∷ ("dag_nodes", array (named "DoubleNodeWithMerkleProof"))
            ∷ []),
      )
      ∷ (
        "DoubleNodeWithMerkleProof",
        struct (("dag_nodes", array (named "H512")) ∷ ("proof", array (named "H128")) ∷ []),
      )
      ∷ ("H128", function hex_to_buffer (reader_to_hex 16))
      ∷ ("H256", function hex_to_buffer (reader_to_hex 32))
      ∷ ("H512", function hex_to_buffer (reader_to_hex 64))
      ∷ ("?H256", option (named "H256"))
      ∷ ("?AccountId", option string)
      ∷ []

  abbrev pub prover_schema : Schema
  prover_schema =
      ("initInput", struct (("bridge_smart_contract", string) ∷ []))
      ∷ (
        "assertEthbridgeHashInput",
        struct (("block_number", u64) ∷ ("expected_block_hash", named "H256") ∷ []),
      )
      ∷ ("H256", function hex_to_buffer (reader_to_hex 32))
      ∷ (
        "verifyLogEntry",
        struct (
            ("log_index", u64)
            ∷ ("log_entry_data", array u8)
            ∷ ("receipt_index", u64)
            ∷ ("receipt_data", array u8)
            ∷ ("header_data", array u8)
            ∷ ("proof", array (array u8))
            ∷ ("skip_bridge_call", boolean)
            ∷ []),
      )
      ∷ []

  -- A text of `n` bytes that web3 takes to bytes and back.
  abbrev pub IsHex : ℕ → Value → Type 0
  IsHex n v =
      (bs : List ℕ) × (hex_to_bytes v ≡ ok bs)
      × (length bs ≡ n)
      × All IsByte bs
      × (v ≡ str (bytes_to_hex bs))

  hex_fits : (n : ℕ) (v : Value) → IsHex n v → FitsFunction hex_to_buffer (reader_to_hex n) v
  unfolding hex_to_buffer reader_to_hex
  hex_fits n v (bs, read, len, small, back) = (
    bs,
    read,
    small,
    rw back (
        Takes-map (read_fixed_array n) (λ b. str (bytes_to_hex b)) bs bs
          (unfold read_fixed_array in read_buffer-Takes_at n bs len)),
  )

  hashes_fit :
      (hashes : Items)
      → AllItems (IsHex 32) hashes
      → AllItems (Fits client_schema 1 (named "H256")) hashes
  unfolding Fits
  hashes_fit nil h = tt
  hashes_fit (cons v hashes) (hv, h) = (hex_fits 32 v hv, hashes_fit hashes h)

  -- A list of 32-byte hashes, as `known_hashes` returns it, is read back from its encoding, for a
  -- writer and a BN as documented and hashes that web3 takes to bytes and back.
  pub hashes_round_trip :
      {Buf : Type 0} (l : Library Buf) (hashes : Items)
      → LibraryLaws l
      → count hashes < 2 ^ 32
      → AllItems (IsHex 32) hashes
      → (bs : List ℕ) × (serialize l client_schema 2 (some (array (named "H256"))) (arr hashes)
          ≡ ok bs)
        × (deserialize l client_schema 2 (some (array (named "H256"))) bs ≡ ok (arr hashes))
  unfolding Fits
  hashes_round_trip l hashes laws small h =
      deserialize-serialize l client_schema 2 (array (named "H256")) (arr hashes) laws
        (small, hashes_fit hashes h)
