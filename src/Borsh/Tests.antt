-- ===== src/Borsh/Tests.antt =====
-- The theorems about borsh, for a writer that keeps the list of bytes.
use rainbow_bridge.Prelude.{
  ℕ, zero, suc, ◌≡◌, refl, String, none, some, List, [], ◌∷◌, ◌++◌, arith, not, ◌==◌, str_eq,
  if◌then◌else◌,
}
use rainbow_bridge.Prelude.Js.{Result, ok, err, error, type_error}
use rainbow_bridge.Borsh.Value.{
  Value, num, big, str, bytes, arr, obj, nil, cons, end, field, count, le_bytes, le_value,
}
use rainbow_bridge.Borsh.Codec.{Library, Schema, named, serialize, deserialize}
use rainbow_bridge.Borsh.Codec.Laws.{LibraryLaws, Fits, write_items}
use rainbow_bridge.Borsh.Codec.RoundTrip.{deserialize-serialize}
use rainbow_bridge.Borsh.Schemas.{client_schema}
use rainbow_bridge.Borsh.Borshify.{
  Coders, Key, BlockProducer, InnerLite, Block, borshify, borshify_producer,
}
use rainbow_bridge.Borsh.Borshify.Decoder.{decode_block, decode_producer}
use rainbow_bridge.Borsh.Borshify.Parts.{IsLittleEndian, bytes_of, IsHash, IsBlock, view_block}
use rainbow_bridge.Borsh.Borshify.RoundTrip.{decode_block-borshify}
use rainbow_bridge.Borsh.Borshify.Versions.{IsSecondVersion, second_version_misread}

abbrev pub put_number : ℕ → Value → List ℕ → Result (List ℕ)
put_number n (num v) w = ok (w ++ le_bytes n v)
put_number n (big v) w = ok (w ++ le_bytes n v)
put_number n v w = err (type_error "not a number")

abbrev pub put_byte : Value → List ℕ → Result (List ℕ)
put_byte (num v) w = ok (w ++ v ∷ [])
put_byte v w = err (type_error "not a number")

abbrev pub put_bytes : Value → List ℕ → Result (List ℕ)
put_bytes (bytes bs) w = ok (w ++ bs)
put_bytes v w = err (type_error "not bytes")

abbrev pub put_array : Value → (Value → List ℕ → Result (List ℕ)) → List ℕ → Result (List ℕ)
put_array (arr items) fn w = write_items fn items (w ++ le_bytes 4 (count items))
put_array v fn w = err (type_error "not an array")

abbrev pub plain : Library (List ℕ)
plain = record {
  new_writer = [];
  to_array = λ w. w;
  write_u8 = put_byte;
  write_u64 = put_number 8;
  write_u128 = put_number 16;
  write_string = λ v w. err (type_error "not kept");
  write_fixed_array = put_bytes;
  write_buffer = λ bs w. ok (w ++ bs);
  write_array = put_array;
  bn_from_le = le_value;
}

pub plain-LibraryLaws : LibraryLaws plain
plain-LibraryLaws = record {
  empty = refl;
  u8_lem = λ n w h. (w ++ n ∷ [], refl, refl);
  u64_lem = λ n w h. (w ++ le_bytes 8 n, refl, refl);
  u128_lem = λ n w h. (w ++ le_bytes 16 n, refl, refl);
  fixed_lem = λ bs w h. (w ++ bs, refl, refl);
  buffer_lem = λ bs w h. (w ++ bs, refl, refl);
  array_lem = λ items fn w h. (w ++ le_bytes 4 (count items), refl, refl);
  bn_lem = λ bs. refl;
}

-- Texts of hexadecimal digits, of which web3 takes one to 32 bytes here.
abbrev zeros : ℕ → List ℕ
zeros zero = []
zeros (suc n) = 0 ∷ zeros n

abbrev from_hex : Value → Result (List ℕ)
from_hex (str s) = ok (zeros 32)
from_hex v = err (error "not hex")

abbrev to_hex : List ℕ → String
to_hex bs = "0x00"

abbrev schema : Schema
schema = client_schema from_hex to_hex

-- An `addBlockHeaderInput` without nodes.
abbrev header : Value
header = obj (
    field "block_header" (arr (cons (num 7) (cons (num 200) nil)))
      (field "dag_nodes" (arr nil) end))

header-Fits : Fits schema 4 (named "addBlockHeaderInput") header
unfolding Fits
header-Fits = (
  refl,
  refl,
  (omega arith, (omega arith, (omega arith, tt))),
  (refl, refl, (omega arith, tt), tt),
)

deserialize-serialize_example :
    (bs : List ℕ) × (serialize plain schema 4 (some (named "addBlockHeaderInput")) header ≡ ok bs)
    × (deserialize plain schema 4 (some (named "addBlockHeaderInput")) bs ≡ ok header)
deserialize-serialize_example =
    deserialize-serialize plain schema 4 (named "addBlockHeaderInput") header plain-LibraryLaws
      header-Fits

-- Base 58 texts: "64" stands for 64 zeros, every other text for 32.
abbrev pub coders : Coders
coders = record {
  bs58_decode = λ text. ok (zeros (if str_eq text "64" then 64 else 32));
  to_le = λ n v. ok (le_bytes n v);
}

pub coders-IsLittleEndian : IsLittleEndian coders
coders-IsLittleEndian n v h = refl

abbrev key : String → Key
key body = record { prefix = "ed25519:"; body = body }

abbrev pub lite : InnerLite
lite = record {
  height = 12;
  epoch_id = "";
  next_epoch_id = "";
  prev_state_root = "";
  outcome_root = "";
  timestamp_nanosec = some 5_000_000_000;
  timestamp = 5;
  next_bp_hash = "";
  block_merkle_root = "";
}

abbrev first_version : BlockProducer
first_version = record {
  struct_version = none;
  account_id = 97 ∷ 98 ∷ [];
  public_key = key "";
  stake = 1000;
}

abbrev pub second_version : BlockProducer
second_version = record first_version { struct_version = some "V2" }

-- One producer, which approves, and one approval that is missing.
abbrev pub block : Block
block = record {
  prev_block_hash = "";
  next_block_inner_hash = "";
  inner_lite = lite;
  inner_rest_hash = "";
  next_bps = first_version ∷ [];
  approvals_after_next = some (key "64") ∷ none ∷ [];
}

pub hash : IsHash coders ""
hash = (refl, refl)

block-IsBlock : IsBlock coders block
block-IsBlock = record {
  prev_block_hash = hash;
  next_block_inner_hash = hash;
  inner_lite = record {
    height = omega arith;
    epoch_id = hash;
    next_epoch_id = hash;
    prev_state_root = hash;
    outcome_root = hash;
    timestamp = omega arith;
    next_bp_hash = hash;
    block_merkle_root = hash;
  };
  inner_rest_hash = hash;
  producers = (
    record { version = refl; name = omega arith; kind = refl; key = hash; stake = omega arith },
    tt,
  );
  producers_fit = omega arith;
  approvals = ((refl, refl, refl), (tt, tt));
  approvals_fit = omega arith;
}

decode_block-borshify_example :
    (bs : List ℕ) × (borshify coders block ≡ ok bs)
    × (decode_block bs ≡ some (view_block coders block, []))
decode_block-borshify_example =
    decode_block-borshify coders block coders-IsLittleEndian block-IsBlock

second_version-IsSecondVersion : IsSecondVersion coders second_version
second_version-IsSecondVersion = record {
  version = refl;
  name = omega arith;
  kind = refl;
  key = hash;
  stake = omega arith;
}

-- The byte 5 that follows is taken for the flag.
second_version_misread_example :
    (bs : List ℕ) × (borshify_producer coders second_version ≡ ok bs)
    × (decode_producer (bs ++ 5 ∷ [])
        ≡ some (
          record { public_key = bytes_of coders ""; stake = 1000; is_chunk_only = not (5 == 0) },
          [],
        ))
second_version_misread_example =
    second_version_misread coders second_version 5 [] coders-IsLittleEndian
      second_version-IsSecondVersion
