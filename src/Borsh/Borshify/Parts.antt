-- ===== src/Borsh/Borshify/Parts.antt =====
-- The parts of a block: what the contract decodes, and when an encoding is read back.
use rainbow_bridge.Prelude.{
  ℕ, ◌^◌, ◌<◌, ◌≡◌, refl, sym, ap, ◌∙◌, String, Bool, true, false, Option, none, some, List, [],
  ◌∷◌, ◌++◌, map, arith, ◌==◌, if◌then◌else◌, length, All, length-append, append_assoc, append-nil,
  take, drop, take-append-drop, length-drop,
}
use rainbow_bridge.Prelude.Js.{Result, ok, err}
use rainbow_bridge.Borsh.Value.{le_bytes, le_value}
use rainbow_bridge.Borsh.Borshify.{
  Coders, concat, Key, BlockProducer, InnerLite, Block, stake_version, timestamp_of, key_type,
  borshify_producer, borshify_approval, borshify_inner_lite,
}
use rainbow_bridge.Borsh.Borshify.Decoder.{
  Decoder, ◌>>=◌, pure, decode_uint, decode_bytes32, decode_bool, SolProducer, SolInnerLite,
  SolBlock, decode_chunk_only, decode_producer, decode_signature, decode_approval,
  decode_inner_lite,
}
use rainbow_bridge.Borsh.Borshify.Encodes.{
  Encodes, Encodes-cons, Encodes-nil, Encodes-require, read_lem, Encodes-read, Encodes-uint,
}

-- BN's `toBuffer('le', n)` as documented.
abbrev pub IsLittleEndian : Coders → Type 0
IsLittleEndian coders = (n v : ℕ) → v < 256 ^ n → coders.to_le n v ≡ ok (le_bytes n v)

-- The bytes of a base 58 text; nothing if it is none.
abbrev pub bytes_of : Coders → String → List ℕ
bytes_of coders text = elim (coders.bs58_decode text) [ ok bs ↦ bs | err e ↦ [] ]

module _ (coders : Coders) where
  -- A base 58 text of 32 bytes.
  abbrev pub IsHash : String → Type 0
  IsHash text =
      (coders.bs58_decode text ≡ ok (bytes_of coders text)) × (length (bytes_of coders text) ≡ 32)

  -- A producer of the first version with an ed25519 key.
  pub record IsProducer (bp : BlockProducer) : Type 0 where
    pub version : stake_version bp.struct_version ≡ 0
    pub name : length bp.account_id < 2 ^ 32
    pub kind : key_type bp.public_key ≡ 0
    pub key : IsHash bp.public_key.body
    pub stake : bp.stake < 2 ^ 128

  abbrev pub view_producer : BlockProducer → SolProducer
  view_producer bp = record {
    public_key = bytes_of coders bp.public_key.body;
    stake = bp.stake;
    is_chunk_only = false;
  }

  -- No signature, or an ed25519 signature, of 64 bytes.
  abbrev pub IsApproval : Option Key → Type 0
  IsApproval none = Unit
  IsApproval (some key) =
      (key_type key ≡ 0)
      × (coders.bs58_decode key.body ≡ ok (bytes_of coders key.body))
      × (length (bytes_of coders key.body) ≡ 64)

  abbrev pub view_approval : Option Key → Option (List ℕ × List ℕ)
  view_approval none = none
  view_approval (some key) =
      some (take 32 (bytes_of coders key.body), drop 32 (bytes_of coders key.body))

  pub record IsInnerLite (lite : InnerLite) : Type 0 where
    pub height : lite.height < 2 ^ 64
    pub epoch_id : IsHash lite.epoch_id
    pub next_epoch_id : IsHash lite.next_epoch_id
    pub prev_state_root : IsHash lite.prev_state_root
    pub outcome_root : IsHash lite.outcome_root
    pub timestamp : timestamp_of lite < 2 ^ 64
    pub next_bp_hash : IsHash lite.next_bp_hash
    pub block_merkle_root : IsHash lite.block_merkle_root

  abbrev pub view_inner_lite : InnerLite → SolInnerLite
  view_inner_lite lite = record {
    height = lite.height;
    epoch_id = bytes_of coders lite.epoch_id;
    next_epoch_id = bytes_of coders lite.next_epoch_id;
    prev_state_root = bytes_of coders lite.prev_state_root;
    outcome_root = bytes_of coders lite.outcome_root;
    timestamp = timestamp_of lite;
    next_bp_hash = bytes_of coders lite.next_bp_hash;
    block_merkle_root = bytes_of coders lite.block_merkle_root;
  }

  -- Every hash decodes to 32 bytes, the numbers fit, the producers are of the first version.
  pub record IsBlock (block : Block) : Type 0 where
    pub prev_block_hash : IsHash block.prev_block_hash
    pub next_block_inner_hash : IsHash block.next_block_inner_hash
    pub inner_lite : IsInnerLite block.inner_lite
    pub inner_rest_hash : IsHash block.inner_rest_hash
    pub producers : All IsProducer block.next_bps
    pub producers_fit : length block.next_bps < 2 ^ 32
    pub approvals : All IsApproval block.approvals_after_next
    pub approvals_fit : length block.approvals_after_next < 2 ^ 32

  abbrev pub view_block : Block → SolBlock
  view_block block = record {
    prev_block_hash = bytes_of coders block.prev_block_hash;
    next_block_inner_hash = bytes_of coders block.next_block_inner_hash;
    inner_lite = view_inner_lite block.inner_lite;
    inner_rest_hash = bytes_of coders block.inner_rest_hash;
    next_bps = some (map view_producer block.next_bps);
    approvals_after_next = map view_approval block.approvals_after_next;
  }

  module _ (le : IsLittleEndian coders) where
    pub hash_lem :
        (text : String)
        → IsHash text
        → Encodes (coders.bs58_decode text) decode_bytes32 (bytes_of coders text)
    hash_lem text (q, len) = Encodes-read 32 _ (bytes_of coders text) q len

    pub uint_lem : (n v : ℕ) → v < 256 ^ n → Encodes (coders.to_le n v) (decode_uint n) v
    uint_lem n v small = Encodes-uint n v _ small (le n v small)

    pub byte_decodes : (v : ℕ) (rest : List ℕ) → decode_uint 1 (v ∷ rest) ≡ some (v, rest)
    unfolding decode_uint le_value
    byte_decodes v rest =
        rw (read_lem 1 (v ∷ []) refl rest) (ap (λ (n : ℕ). some (n, rest)) (omega arith))

    pub byte_lem : (v : ℕ) → Encodes (ok (v ∷ [])) (decode_uint 1) v
    byte_lem v = record { written = v ∷ []; result = refl; decodes = byte_decodes v }

    -- A version other than 1 has no flag.
    no_flag :
        {B : Type 0} (e : Result (List ℕ)) (version : ℕ) (f : Bool → Decoder B) (v : B)
        → version ≡ 0
        → Encodes e (f false) v
        → Encodes e (decode_chunk_only version >>= f) v
    unfolding decode_chunk_only
    no_flag e version f v zeroth h = record {
      written = h.written;
      result = h.result;
      decodes = λ rest. rw zeroth (h.decodes rest);
    }

    pub producer_lem :
        (bp : BlockProducer)
        → IsProducer bp
        → Encodes (borshify_producer coders bp) decode_producer (view_producer bp)
    unfolding borshify_producer decode_producer
    producer_lem bp h = Encodes-cons _ _ _ _ (stake_version bp.struct_version) _ (byte_lem _) (
        Encodes-cons _ _ _ _ (length bp.account_id) _ (uint_lem 4 _ (omega (arith, h.name))) (
          Encodes-cons _ _ _ _ bp.account_id _ (Encodes-read _ _ _ refl refl) (
            Encodes-cons _ _ _ _ (key_type bp.public_key) _ (byte_lem _) (
              Encodes-require _ (key_type bp.public_key == 0) _ _ (rw h.kind) (
                Encodes-cons _ _ _ _ (bytes_of coders bp.public_key.body) _ (hash_lem _ h.key) (
                  Encodes-cons _ _ _ _ bp.stake _ (uint_lem 16 _ (omega (arith, h.stake))) (
                    no_flag _ (stake_version bp.struct_version) _ _ h.version (Encodes-nil _))))))))

    halves : Decoder (Option (List ℕ × List ℕ))
    halves = do a ← decode_bytes32; b ← decode_bytes32; pure (some (a, b))

    halves_lem :
        (bs rest : List ℕ)
        → length bs ≡ 64
        → halves (bs ++ rest) ≡ some (some (take 32 bs, drop 32 bs), rest)
    unfolding halves
    halves_lem bs rest len =
        let whole : take 32 bs ++ drop 32 bs ≡ bs = take-append-drop 32 bs in
        let hs : length (drop 32 bs) ≡ 32 = omega (arith, length-drop 32 bs) in
        let hr : length (take 32 bs) ≡ 32 =
          omega (arith, hs, length-append (take 32 bs) (drop 32 bs), ap length whole) in
        let split : bs ++ rest ≡ take 32 bs ++ (drop 32 bs ++ rest) =
          ap (λ (l : List ℕ). l ++ rest) (sym whole)
          ∙ append_assoc (take 32 bs) (drop 32 bs) rest in
        rw (
          split,
          read_lem 32 (take 32 bs) hr (drop 32 bs ++ rest),
          read_lem 32 (drop 32 bs) hs rest,
        )

    bool_decodes :
        (b : Bool) (rest : List ℕ) → decode_bool ((if b then 1 else 0) ∷ rest) ≡ some (b, rest)
    unfolding decode_bool
    bool_decodes true rest = rw (decode_bool, byte_decodes 1 rest)
    bool_decodes false rest = rw (decode_bool, byte_decodes 0 rest)

    pub bool_lem : (b : Bool) → Encodes (ok ((if b then 1 else 0) ∷ [])) decode_bool b
    bool_lem b = record {
      written = (if b then 1 else 0) ∷ [];
      result = refl;
      decodes = bool_decodes b;
    }

    pub approval_lem :
        (a : Option Key)
        → IsApproval a
        → Encodes (borshify_approval coders a) decode_approval (view_approval a)
    unfolding borshify_approval decode_approval decode_signature concat halves
    approval_lem none h = record {
      written = 0 ∷ [];
      result = refl;
      decodes = λ rest. rw (bool_decodes false rest);
    }
    approval_lem (some key) (kind, q, len) =
        Encodes-cons _ (ok (key_type key ∷ []) ∷ coders.bs58_decode key.body ∷ []) _
          decode_signature true _ (bool_lem true)
          (Encodes-cons _ (coders.bs58_decode key.body ∷ []) _ _ (key_type key) _
            (byte_lem (key_type key))
            (Encodes-require _ (key_type key == 0) _ _ (rw kind) (record {
              written = bytes_of coders key.body ++ [];
              result = rw q;
              decodes = λ rest. rw append-nil (halves_lem (bytes_of coders key.body) rest len);
            })))

    pub inner_lite_lem :
        (lite : InnerLite)
        → IsInnerLite lite
        → Encodes (borshify_inner_lite coders lite) decode_inner_lite (view_inner_lite lite)
    unfolding borshify_inner_lite decode_inner_lite
    inner_lite_lem lite h =
        Encodes-cons _ _ _ _ lite.height _ (uint_lem 8 _ (omega (arith, h.height))) (
          Encodes-cons _ _ _ _ (bytes_of coders lite.epoch_id) _ (hash_lem _ h.epoch_id) (
            Encodes-cons _ _ _ _ (bytes_of coders lite.next_epoch_id) _ (hash_lem _ h.next_epoch_id)
              (Encodes-cons _ _ _ _ (bytes_of coders lite.prev_state_root) _
                (hash_lem _ h.prev_state_root)
                (Encodes-cons _ _ _ _ (bytes_of coders lite.outcome_root) _
                  (hash_lem _ h.outcome_root)
                  (Encodes-cons _ _ _ _ (timestamp_of lite) _
                    (uint_lem 8 _ (omega (arith, h.timestamp)))
                    (Encodes-cons _ _ _ _ (bytes_of coders lite.next_bp_hash) _
                      (hash_lem _ h.next_bp_hash)
                      (Encodes-cons _ _ _ _ (bytes_of coders lite.block_merkle_root) _
                        (hash_lem _ h.block_merkle_root) (Encodes-nil _))))))))
