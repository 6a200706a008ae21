-- ===== src/Borsh/Codec.antt =====
-- `serializeField`, `serialize`, `deserializeField` and `deserialize` of utils/borsh.js. The stack
-- depth that is left is an argument: a schema may refer to itself, and JavaScript then throws the
-- error that stands for an empty stack here. The names of types in the messages are left out.
pub mod Laws
pub mod Steps
pub mod RoundTrip
pub mod Typed
mod Tests
use rainbow_bridge.Prelude.{
  ℕ, zero, suc, ◌+◌, ◌-◌, ◌≡◌, String, Bool, true, false, Option, none, some, List, [], ◌∷◌, arith,
  ltb, ◌==◌, str_eq, if◌then◌else◌, length,
}
use rainbow_bridge.Prelude.Js.{JsError, Result, ok, err, error, type_error, ◌>>=◌, ◌>>◌}
use rainbow_bridge.Borsh.Value.{
  Value, null, undefined, bool, num, big, str, bytes, arr, obj, Items, nil, cons, Fields, end,
  field, get_field, set_field, get_length, truthy, is_null,
}
use rainbow_bridge.Borsh.Reader.{
  Reader, skip, Read, read_u8, read_u32, read_u64, read_u128, read_string, read_fixed_array,
  read_array,
}

-- The BinaryWriter of near-api-js, over its buffers, and the BN of bn.js.
pub record Library (Buf : Type 0) : Type 0 where
  pub new_writer : Buf
  pub to_array : Buf → List ℕ
  pub write_u8 : Value → Buf → Result Buf
  pub write_u64 : Value → Buf → Result Buf
  pub write_u128 : Value → Buf → Result Buf
  pub write_string : Value → Buf → Result Buf
  pub write_fixed_array : Value → Buf → Result Buf
  pub write_buffer : List ℕ → Buf → Result Buf
  pub write_array : Value → (Value → Buf → Result Buf) → Buf → Result Buf
  pub bn_from_le : List ℕ → ℕ

-- The names 'u8', ... are matched before the schema is looked at, so `named` is any other name.
pub data FieldType : Type 0 where
  u8 u64 u128 boolean string : FieldType
  fixed : ℕ → FieldType
  array : FieldType → FieldType
  named : String → FieldType

-- An entry of a schema, by its `kind`.
pub data Entry : Type 0 where
  option : FieldType → Entry
  struct : List (String × FieldType) → Entry
  function : (Value → Result (List ℕ)) → Read Value → Entry
  other : String → Entry

abbrev pub Schema : Type 0
Schema = List (String × Entry)

-- `schema[fieldType]`.
abbrev pub find_entry : Schema → String → Option Entry
find_entry [] name = none
find_entry ((n, e) ∷ schema) name = if str_eq n name then some e else find_entry schema name

abbrev pub stack_overflow : JsError
stack_overflow = record { name = "RangeError"; message = "Maximum call stack size exceeded" }

-- `Schema type ... is missing in schema`.
abbrev pub or_missing : Option Entry → Result Entry
or_missing none = err (error "Schema type is missing in schema")
or_missing (some e) = ok e

-- `value.length !== fieldType[0]`.
abbrev has_length : Option ℕ → ℕ → Bool
has_length none n = false
has_length (some len) n = len == n

-- `structSchema.fields.map(...)`: each field is written in the schema's order.
module _ {Buf : Type 0} where
  unfoldable pub write_fields :
      (FieldType → Value → Buf → Result Buf) → List (String × FieldType) → Value → Buf → Result Buf
  write_fields write [] value w = ok w
  write_fields write ((name, ft) ∷ fields) value w = do
    v ← get_field value name
    w' ← write ft v w
    write_fields write fields value w'

-- The loop of the 'struct' case of `deserializeField`.
unfoldable pub read_fields :
    (FieldType → Read Value) → List (String × FieldType) → Fields → Read Value
read_fields read [] result r = ok (obj result, r)
read_fields read ((name, ft) ∷ fields) result r = do
  (v, r') ← read ft r
  read_fields read fields (set_field result name v) r'

-- `optionRes` as a flag.
unfoldable pub read_option : Read Value → ℕ → Read Value
read_option read flag r =
    if flag == 0
    then ok (null, r)
    else if flag == 1
    then read r
    else err (error "Unexpected option flag")

module _ {Buf : Type 0} (l : Library Buf) (schema : Schema) where
  open l use {
    new_writer, to_array, write_u8, write_u64, write_u128, write_string, write_fixed_array,
    write_buffer, write_array, bn_from_le,
  }

  -- The cases of `structSchema.kind`; `write` is `serializeField` one call deeper.
  unfoldable pub serialize_entry :
      (FieldType → Value → Buf → Result Buf) → Entry → Value → Buf → Result Buf
  serialize_entry write (option ft) value w =
      if is_null value then write_u8 (num 0) w else (do w' ← write_u8 (num 1) w; write ft value w')
  serialize_entry write (struct fields) value w = write_fields write fields value w
  serialize_entry write (function ser deser) value w = do bs ← ser value; write_buffer bs w
  serialize_entry write (other kind) value w = err (error "Unexpected schema kind")

  unfoldable pub serialize_case :
      (FieldType → Value → Buf → Result Buf) → FieldType → Value → Buf → Result Buf
  serialize_case write u8 value w = write_u8 value w
  serialize_case write u64 value w = write_u64 value w
  serialize_case write u128 value w = write_u128 value w
  serialize_case write boolean value w = write_u8 (num (if truthy value then 1 else 0)) w
  serialize_case write string value w = write_string value w
  serialize_case write (fixed n) value w = do
    len ← get_length value
    if has_length len n
        then write_fixed_array value w
        else err (error "Expecting byte array of length")
  serialize_case write (array ft) value w = write_array value (write ft) w
  serialize_case write (named name) value w = do
    e ← or_missing (find_entry schema name)
    serialize_entry write e value w

  unfoldable pub serialize_field : ℕ → FieldType → Value → Buf → Result Buf
  serialize_field zero ft value w = err stack_overflow
  serialize_field (suc depth) ft value w = serialize_case (serialize_field depth) ft value w

  unfoldable pub deserialize_entry : (FieldType → Read Value) → Entry → Read Value
  deserialize_entry read (option ft) r = do (flag, r') ← read_u8 r; read_option (read ft) flag r'
  deserialize_entry read (struct fields) r = read_fields read fields end r
  deserialize_entry read (function ser deser) r = deser r
  deserialize_entry read (other kind) r = err (error "Unexpected schema kind")

  unfoldable pub deserialize_case : (FieldType → Read Value) → FieldType → Read Value
  deserialize_case read u8 r = do (b, r') ← read_u8 r; ok (num b, r')
  deserialize_case read u64 r = do (n, r') ← read_u64 bn_from_le r; ok (big n, r')
  deserialize_case read u128 r = do (n, r') ← read_u128 bn_from_le r; ok (big n, r')
  deserialize_case read boolean r = do (b, r') ← read_u8 r; ok (bool (truthy (num b)), r')
  deserialize_case read string r = do (s, r') ← read_string r; ok (str s, r')
  deserialize_case read (fixed n) r = do (bs, r') ← read_fixed_array n r; ok (bytes bs, r')
  deserialize_case read (array ft) r = read_array (read ft) r
  deserialize_case read (named name) r = do
    e ← or_missing (find_entry schema name)
    deserialize_entry read e r

  unfoldable pub deserialize_field : ℕ → FieldType → Read Value
  deserialize_field zero ft r = err stack_overflow
  deserialize_field (suc depth) ft r = deserialize_case (deserialize_field depth) ft r

  -- A type of `none` is `null`: a method without arguments or without a result.
  unfoldable pub serialize : ℕ → Option FieldType → Value → Result (List ℕ)
  serialize depth none value = ok []
  serialize depth (some ft) value = do
    w ← serialize_field depth ft value new_writer
    ok (to_array w)

  unfoldable pub deserialize : ℕ → Option FieldType → List ℕ → Result Value
  deserialize depth none buffer = ok null
  deserialize depth (some ft) buffer = do
    (v, r) ← deserialize_field depth ft (record { buf = buffer; offset = 0 })
    if ltb r.offset (length buffer)
        then err (error "Unexpected bytes after deserialized data")
        else ok v
