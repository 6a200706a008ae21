-- ===== src/Borsh/Borshify/Decoder.antt =====
-- The other side of `borshify`, after contracts/eth/nearbridge/contracts/NearDecoder.sol and
-- Borsh.sol: a decoder takes bytes from the front, and `none` is a revert. The fields that the
-- contract computes, its hashes, are left out.
use rainbow_bridge.Prelude.{
  ℕ, zero, suc, Bool, true, false, not, Option, none, some, List, [], ◌∷◌, ltb, ◌==◌, if◌then◌else◌,
  length, take, drop,
}
use rainbow_bridge.Borsh.Value.{le_value}

abbrev pub Decoder : Type 0 → Type 0
Decoder A = List ℕ → Option (A × List ℕ)

abbrev then_decode : {A B : Type 0} → Option (A × List ℕ) → (A → Decoder B) → Option (B × List ℕ)
then_decode none f = none
then_decode (some (a, rest)) f = f a rest

infixl 5 ◌>>=◌ ◌>>◌
abbrev pub ◌>>=◌ : {A B : Type 0} → Decoder A → (A → Decoder B) → Decoder B
◌>>=◌ m f xs = then_decode (m xs) f

abbrev pub ◌>>◌ : {A B : Type 0} → Decoder A → Decoder B → Decoder B
m >> k = m >>= λ _. k

abbrev pub pure : {A : Type 0} → A → Decoder A
pure a xs = some (a, xs)

-- `require`.
abbrev pub require : Bool → Decoder (Unit {0})
require true xs = some (tt, xs)
require false xs = none

unfoldable pub read : ℕ → Decoder (List ℕ)
read n xs = if ltb (length xs) n then none else some (take n xs, drop n xs)

unfoldable pub decode_uint : ℕ → Decoder ℕ
decode_uint n = do bs ← read n; pure (le_value bs)

abbrev pub decode_bytes32 : Decoder (List ℕ)
decode_bytes32 = read 32

-- A byte above 1 reverts.
unfoldable pub decode_bool : Decoder Bool
decode_bool = do b ← decode_uint 1; require (ltb b 2); pure (not (b == 0))

-- `for (uint i = 0; i < length; i++)`.
unfoldable pub repeat : {A : Type 0} → ℕ → Decoder A → Decoder (List A)
repeat zero d = pure []
repeat (suc n) d = do a ← d; more ← repeat n d; pure (a ∷ more)

pub record SolProducer : Type 0 where
  pub public_key : List ℕ
  pub stake : ℕ
  pub is_chunk_only : Bool

pub record SolInnerLite : Type 0 where
  pub height : ℕ
  pub epoch_id : List ℕ
  pub next_epoch_id : List ℕ
  pub prev_state_root : List ℕ
  pub outcome_root : List ℕ
  pub timestamp : ℕ
  pub next_bp_hash : List ℕ
  pub block_merkle_root : List ℕ

pub record SolBlock : Type 0 where
  pub prev_block_hash : List ℕ
  pub next_block_inner_hash : List ℕ
  pub inner_lite : SolInnerLite
  pub inner_rest_hash : List ℕ
  pub next_bps : Option (List SolProducer)
  pub approvals_after_next : List (Option (List ℕ × List ℕ))

-- `VALIDATOR_V2` is 1: a flag follows the stake.
unfoldable pub decode_chunk_only : ℕ → Decoder Bool
decode_chunk_only version =
    if version == 1 then (do b ← decode_uint 1; pure (not (b == 0))) else pure false

unfoldable pub decode_producer : Decoder SolProducer
decode_producer = do
  version ← decode_uint 1
  name ← decode_uint 4
  read name
  key ← decode_uint 1
  require (key == 0)
  k ← decode_bytes32
  stake ← decode_uint 16
  chunk_only ← decode_chunk_only version
  pure (record { public_key = k; stake = stake; is_chunk_only = chunk_only })

unfoldable pub decode_producers : Bool → Decoder (Option (List SolProducer))
decode_producers false = pure none
decode_producers true = do n ← decode_uint 4; bps ← repeat n decode_producer; pure (some bps)

unfoldable pub decode_signature : Bool → Decoder (Option (List ℕ × List ℕ))
decode_signature false = pure none
decode_signature true = do
  kind ← decode_uint 1
  require (kind == 0)
  r ← decode_bytes32
  s ← decode_bytes32
  pure (some (r, s))

unfoldable pub decode_approval : Decoder (Option (List ℕ × List ℕ))
decode_approval = do flag ← decode_bool; decode_signature flag

unfoldable pub decode_inner_lite : Decoder SolInnerLite
decode_inner_lite = do
  height ← decode_uint 8
  epoch_id ← decode_bytes32
  next_epoch_id ← decode_bytes32
  prev_state_root ← decode_bytes32
  outcome_root ← decode_bytes32
  timestamp ← decode_uint 8
  next_bp_hash ← decode_bytes32
  block_merkle_root ← decode_bytes32
  pure (record {
    height = height;
    epoch_id = epoch_id;
    next_epoch_id = next_epoch_id;
    prev_state_root = prev_state_root;
    outcome_root = outcome_root;
    timestamp = timestamp;
    next_bp_hash = next_bp_hash;
    block_merkle_root = block_merkle_root;
  })

unfoldable pub decode_block : Decoder SolBlock
decode_block = do
  prev_block_hash ← decode_bytes32
  next_block_inner_hash ← decode_bytes32
  inner_lite ← decode_inner_lite
  inner_rest_hash ← decode_bytes32
  flag ← decode_bool
  next_bps ← decode_producers flag
  n ← decode_uint 4
  approvals ← repeat n decode_approval
  pure (record {
    prev_block_hash = prev_block_hash;
    next_block_inner_hash = next_block_inner_hash;
    inner_lite = inner_lite;
    inner_rest_hash = inner_rest_hash;
    next_bps = next_bps;
    approvals_after_next = approvals;
  })
