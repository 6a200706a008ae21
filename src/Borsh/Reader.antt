-- ===== src/Borsh/Reader.antt =====
-- The class `BinaryReader` of utils/borsh.js. A read that throws ends the whole deserialization, so
-- the reader is not returned beside an error. The numbers in the messages are left out.
pub mod At
pub mod Bytes
use rainbow_bridge.Prelude.{
  ℕ, zero, suc, ◌+◌, ◌-◌, ◌*◌, ◌≤◌, ◌<◌, ◌≡◌, refl, ap, String, Bool, true, false, Option, none,
  some, List, [], ◌∷◌, ◌++◌, arith, ltb, if◌then◌else◌, length, take, drop,
}
use rainbow_bridge.Prelude.Js.{JsError, Result, ok, err, type_error, ◌>>=◌, ◌>>◌}
use rainbow_bridge.Borsh.Value.{Value, arr, Items, nil, cons, le_value}

pub record Reader : Type 0 where
  pub buf : List ℕ
  pub offset : ℕ

abbrev pub skip : Reader → ℕ → Reader
skip r n = record r { offset = r.offset + n }

abbrev pub Read : Type 0 → Type 0
Read A = Reader → Result (A × Reader)

abbrev pub range_error : JsError
range_error = record { name = "RangeError"; message = "The value of \"offset\" is out of range." }

abbrev pub borsh_error : JsError
borsh_error = record { name = "BorshError"; message = "Expected buffer length isn't within bounds" }

-- What stands at the offset; Node's `readUInt8` throws past the end.
unfoldable pub read_u8 : Read ℕ
read_u8 r = elim (drop r.offset r.buf) [ [] ↦ err range_error | b ∷ bs ↦ ok (b, skip r 1) ]

unfoldable pub read_u32 : Read ℕ
read_u32 r =
    if ltb (length r.buf) (r.offset + 4)
    then err range_error
    else ok (le_value (take 4 (drop r.offset r.buf)), skip r 4)

unfoldable pub read_buffer : ℕ → Read (List ℕ)
read_buffer len r =
    if ltb (length r.buf) (r.offset + len)
    then err borsh_error
    else ok (take len (drop r.offset r.buf), skip r len)

-- `new BN(buf, 'le')` is the parameter.
unfoldable pub read_u64 : (List ℕ → ℕ) → Read ℕ
read_u64 bn_from_le r = do (bs, r') ← read_buffer 8 r; ok (bn_from_le bs, r')

unfoldable pub read_u128 : (List ℕ → ℕ) → Read ℕ
read_u128 bn_from_le r = do (bs, r') ← read_buffer 16 r; ok (bn_from_le bs, r')

-- `TextDecoder()` without `new`, outside the `try`: a class constructor that is called throws.
unfoldable pub read_string : Read String
read_string r = do
  (len, r') ← read_u32 r
  read_buffer len r'
  err (type_error "Class constructor TextDecoder cannot be invoked without 'new'")

unfoldable pub read_fixed_array : ℕ → Read (List ℕ)
read_fixed_array len r = read_buffer len r

-- The loop of `readArray`, over the rounds left.
unfoldable pub read_items : ℕ → Read Value → Read Items
read_items zero fn r = ok (nil, r)
read_items (suc len) fn r = do
  (v, r') ← fn r
  (items, r'') ← read_items len fn r'
  ok (cons v items, r'')

unfoldable pub read_array : Read Value → Read Value
read_array fn r = do
  (len, r') ← read_u32 r
  (items, r'') ← read_items len fn r'
  ok (arr items, r'')
