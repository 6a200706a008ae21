-- ===== src/Borsh/Codec/Tests.antt =====
-- The theorem about what the codec returns, at a small schema.
use rainbow_bridge.Prelude.{ℕ, ◌≡◌, refl, true, some, List, [], ◌∷◌, arith}
use rainbow_bridge.Prelude.Js.{ok}
use rainbow_bridge.Borsh.Value.{Value, null, bool, big, arr, obj, nil, cons, end, field, le_value}
use rainbow_bridge.Borsh.Codec.{
  Schema, u64, boolean, array, named, struct, option, serialize, deserialize, deserialize_field,
  deserialize_case, deserialize_entry, read_fields, read_option,
}
use rainbow_bridge.Borsh.Reader.{read_u8, read_u32, read_u64, read_buffer, read_items, read_array}
use rainbow_bridge.Borsh.Codec.Laws.{Fits}
use rainbow_bridge.Borsh.Codec.Typed.{SoundSchema, deserialize-Fits}
use rainbow_bridge.Borsh.Tests.{plain, plain-LibraryLaws}

-- A pair of a number and an array, and an option.
abbrev pairs : Schema
pairs =
    ("pair", struct (("count", u64) ∷ ("flags", array (named "?flag")) ∷ []))
    ∷ ("?flag", option boolean)
    ∷ []

abbrev pair_bytes : List ℕ
pair_bytes = 5 ∷ 1 ∷ 0 ∷ 0 ∷ 0 ∷ 0 ∷ 0 ∷ 0 ∷ 2 ∷ 0 ∷ 0 ∷ 0 ∷ 0 ∷ 1 ∷ 1 ∷ []

abbrev pair : Value
pair = obj (field "count" (big 261) (field "flags" (arr (cons null (cons (bool true) nil))) end))

pairs-SoundSchema : SoundSchema pairs
pairs-SoundSchema = ((refl, λ v. (refl, λ v'. tt)), (tt, tt))

pair_read : deserialize plain pairs 4 (some (named "pair")) pair_bytes ≡ ok pair
unfolding deserialize deserialize_field deserialize_case deserialize_entry read_fields read_option
    read_u8 read_u32 read_u64 read_buffer read_items read_array le_value
pair_read = refl

deserialize-Fits_example :
    Fits pairs 4 (named "pair") pair
    × ((bs : List ℕ) × (serialize plain pairs 4 (some (named "pair")) pair ≡ ok bs)
        × (deserialize plain pairs 4 (some (named "pair")) bs ≡ ok pair))
deserialize-Fits_example =
    deserialize-Fits plain plain-LibraryLaws pairs pairs-SoundSchema 4 (named "pair") pair_bytes
      pair (ground arith) pair_read
