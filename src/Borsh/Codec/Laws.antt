-- ===== src/Borsh/Codec/Laws.antt =====
-- What the codec relies on in near-api-js's BinaryWriter and in bn.js, and the values that a
-- schema describes.
use rainbow_bridge.Prelude.{
  ℕ, zero, suc, ◌^◌, ◌<◌, ◌≡◌, String, List, [], ◌∷◌, ◌++◌, Option, none, some, All, length,
}
use rainbow_bridge.Prelude.Js.{Result, ok, ◌>>=◌}
use rainbow_bridge.Borsh.Value.{
  Value, null, bool, num, big, bytes, arr, obj, Items, nil, cons, Fields, end, field, count,
  lookup_field, IsByte, le_bytes, le_value,
}
use rainbow_bridge.Borsh.Reader.{Read}
use rainbow_bridge.Borsh.Reader.At.{Takes}
use rainbow_bridge.Borsh.Codec.{
  Library, Schema, FieldType, u8, u64, u128, boolean, fixed, array, named, Entry, option, struct,
  function, other, find_entry,
}

-- A call appends the bytes `bs` to the buffer.
abbrev pub Appends : {Buf : Type 0} → Library Buf → (Buf → Result Buf) → Buf → List ℕ → Type 0
Appends {Buf} l call w bs = (w' : Buf) × (call w ≡ ok w') × (l.to_array w' ≡ l.to_array w ++ bs)

-- Each item in turn is handed to the callback of `write_array`.
unfoldable pub write_items : {Buf : Type 0} → (Value → Buf → Result Buf) → Items → Buf → Result Buf
write_items fn nil w = ok w
write_items fn (cons v items) w = do w' ← fn v w; write_items fn items w'

-- The documented behaviour: Borsh's encoding of values in range is appended to the buffer.
pub record LibraryLaws {Buf : Type 0} (l : Library Buf) : Type 0 where
  pub empty : l.to_array l.new_writer ≡ []
  pub u8_lem : (n : ℕ) (w : Buf) → n < 256 → Appends l (l.write_u8 (num n)) w (n ∷ [])
  pub u64_lem : (n : ℕ) (w : Buf) → n < 2 ^ 64 → Appends l (l.write_u64 (big n)) w (le_bytes 8 n)
  pub u128_lem :
      (n : ℕ) (w : Buf) → n < 2 ^ 128 → Appends l (l.write_u128 (big n)) w (le_bytes 16 n)
  pub fixed_lem :
      (bs : List ℕ) (w : Buf) → All IsByte bs → Appends l (l.write_fixed_array (bytes bs)) w bs
  pub buffer_lem : (bs : List ℕ) (w : Buf) → All IsByte bs → Appends l (l.write_buffer bs) w bs
  -- The length as four bytes, and then the items.
  pub array_lem :
      (items : Items) (fn : Value → Buf → Result Buf) (w : Buf)
      → count items < 2 ^ 32
      → (w' : Buf) × (l.write_array (arr items) fn w ≡ write_items fn items w')
        × (l.to_array w' ≡ l.to_array w ++ le_bytes 4 (count items))
  pub bn_lem : (bs : List ℕ) → l.bn_from_le bs ≡ le_value bs

abbrev pub AllItems : (Value → Type 0) → Items → Type 0
AllItems P nil = Unit
AllItems P (cons v items) = P v × AllItems P items

abbrev pub append_fields : Fields → Fields → Fields
append_fields end gs = gs
append_fields (field n v fs) gs = field n v (append_fields fs gs)

-- The fields of an object from some point on are those of the schema, in order; each name is new.
abbrev pub FitsFields :
    (FieldType → Value → Type 0) → Fields → List (String × FieldType) → Fields → Type 0
FitsFields P before [] end = Unit
FitsFields P before [] (field n v fs) = ⊥
FitsFields P before ((name, ft) ∷ fields) end = ⊥
FitsFields P before ((name, ft) ∷ fields) (field n v fs) =
    (name ≡ n)
    × (lookup_field before n ≡ none)
    × P ft v
    × FitsFields P (append_fields before (field n v end)) fields fs

-- A function entry gives back what it wrote.
abbrev pub FitsFunction : (Value → Result (List ℕ)) → Read Value → Value → Type 0
FitsFunction ser deser v = (bs : List ℕ) × (ser v ≡ ok bs) × All IsByte bs × Takes deser bs v

abbrev pub FitsEntry : (FieldType → Value → Type 0) → Entry → Value → Type 0
FitsEntry P (option ft) null = Unit
FitsEntry P (option ft) v = P ft v
FitsEntry P (struct fields) (obj fs) = FitsFields P end fields fs
FitsEntry P (struct fields) v = ⊥
FitsEntry P (function ser deser) v = FitsFunction ser deser v
FitsEntry P (other kind) v = ⊥

abbrev pub FitsFound : (FieldType → Value → Type 0) → Option Entry → Value → Type 0
FitsFound P none v = ⊥
FitsFound P (some e) v = FitsEntry P e v

-- `v` is a value of the type, within the machine's ranges, at a nesting within the depth. Strings
-- are left out: `readString` throws.
abbrev pub FitsCase : Schema → (FieldType → Value → Type 0) → FieldType → Value → Type 0
FitsCase schema P u8 (num n) = n < 256
FitsCase schema P u64 (big n) = n < 2 ^ 64
FitsCase schema P u128 (big n) = n < 2 ^ 128
FitsCase schema P boolean (bool b) = Unit
FitsCase schema P (fixed n) (bytes bs) = (length bs ≡ n) × All IsByte bs
FitsCase schema P (array ft) (arr items) = (count items < 2 ^ 32) × AllItems (P ft) items
FitsCase schema P (named name) v = FitsFound P (find_entry schema name) v
FitsCase schema P _ _ = ⊥

unfoldable pub Fits : Schema → ℕ → FieldType → Value → Type 0
Fits schema zero ft v = ⊥
Fits schema (suc depth) ft v = FitsCase schema (Fits schema depth) ft v
