-- ===== src/Borsh/Codec/RoundTrip.antt =====
-- Deserializing what was serialized.
use rainbow_bridge.Prelude.{
  ℕ, zero, suc, ◌^◌, ◌<◌, ◌≡◌, refl, sym, ◌∙◌, String, true, false, Option, none, some, List, [],
  ◌∷◌, ◌++◌, arith, ◌==◌, ==_iff, append-nil, append_assoc, length,
}
use rainbow_bridge.Prelude.Js.{Result, ok, ◌>>=◌}
use rainbow_bridge.Borsh.Value.{
  Value, null, undefined, bool, num, big, str, bytes, arr, obj, Items, nil, cons, Fields, end,
  field, count, lookup_field, set_field, is_null, truthy, le_bytes,
}
use rainbow_bridge.Borsh.Reader.{
  Read, read_u8, read_u32, read_u64, read_u128, read_items, read_array, read_fixed_array,
}
use rainbow_bridge.Borsh.Reader.At.{
  Takes, Takes-bind, Takes-map, Takes-nothing, read_u8-Takes, read_u32-Takes, read_u64-Takes,
  read_u128-Takes, read_buffer-Takes_at,
}
use rainbow_bridge.Borsh.Codec.{
  Library, Schema, FieldType, u8, u64, u128, boolean, fixed, array, named, Entry, option, struct,
  function, find_entry, write_fields, read_fields, read_option, serialize_entry, serialize_case,
  serialize_field, deserialize_entry, deserialize_case, deserialize_field, serialize, deserialize,
}
use rainbow_bridge.Borsh.Codec.Laws.{
  Appends, write_items, LibraryLaws, AllItems, append_fields, FitsFields, FitsEntry, FitsFound,
  FitsCase, Fits,
}
use rainbow_bridge.Borsh.Codec.Steps.{
  lookup-append_fields, set_field-new, append_fields-end, append_fields_assoc, RoundTrips,
  RoundTrips-bind, RoundTrips-map, nothing,
}

-- One level of the codec, for a predicate whose values the level below takes there and back.
module _ {Buf : Type 0} (l : Library Buf) (laws : LibraryLaws l) (schema : Schema)
    (P : FieldType → Value → Type 0) (write : FieldType → Value → Buf → Result Buf)
    (read : FieldType → Read Value)
    (below : (ft : FieldType) (v : Value)
      → P ft v
      → RoundTrips l laws (write ft v) (read ft) v) where
  items_lem :
      (ft : FieldType) (items : Items) (w : Buf)
      → AllItems (P ft) items
      → (bs : List ℕ) × Appends l (write_items (write ft) items) w bs
        × Takes (read_items (count items) (read ft)) bs items
  unfolding write_items read_items
  items_lem ft nil w h = nothing l laws w nil
  items_lem ft (cons v items) w (hv, h) =
      RoundTrips-bind l laws (write ft v) (write_items (write ft) items) (read ft)
        (λ a r. read_items (count items) (read ft) r >>= λ (more, r'). ok (cons a more, r')) w v
        (cons v items) (below ft v hv w)
        (λ w'.
          RoundTrips-map l laws (write_items (write ft) items) (read_items (count items) (read ft))
            (cons v) w' items (items_lem ft items w' h))

  array_lem :
      (ft : FieldType) (items : Items) (w : Buf)
      → count items < 2 ^ 32
      → AllItems (P ft) items
      → (bs : List ℕ) × Appends l (l.write_array (arr items) (write ft)) w bs
        × Takes (read_array (read ft)) bs (arr items)
  unfolding read_array
  array_lem ft items w small h =
      let (w', e, a) = laws.array_lem items (write ft) w small in
      let (ys, (w'', e', a'), took) = items_lem ft items w' h in
      let head : List ℕ = le_bytes 4 (count items) in
      (
        head ++ ys,
        (w'', e ∙ e', rw (a', a, append_assoc)),
        Takes-bind read_u32
            (λ len r. read_items len (read ft) r >>= λ (more, r'). ok (arr more, r')) head ys
            (count items) (arr items) (read_u32-Takes (count items) small)
            (Takes-map (read_items (count items) (read ft)) arr ys items took),
      )

  fields_lem :
      (fields : List (String × FieldType)) (before fs whole : Fields) (w : Buf)
      → append_fields before fs ≡ whole
      → FitsFields P before fields fs
      → (bs : List ℕ) × Appends l (write_fields write fields (obj whole)) w bs
        × Takes (read_fields read fields before) bs (obj whole)
  unfolding write_fields read_fields
  fields_lem [] before end whole w q h =
      let e : before ≡ whole = sym (append_fields-end before) ∙ q in
      rw e (nothing l laws w (obj whole))
  fields_lem [] before (field n v fs) whole w q h = elim h [ ]
  fields_lem ((name, ft) ∷ fields) before end whole w q h = elim h [ ]
  fields_lem ((name, ft) ∷ fields) before (field n v fs) whole w q (same, new, hv, h) =
      let found : lookup_field whole name ≡ some v =
        rw (same, ← q) (lookup-append_fields before n v fs new) in
      let put : set_field before name v ≡ append_fields before (field n v end) =
        rw same (set_field-new before n v new) in
      rw found (
        RoundTrips-bind l laws (write ft v) (write_fields write fields (obj whole)) (read ft)
          (λ a r. read_fields read fields (set_field before name a) r) w v (obj whole)
          (below ft v hv w)
          (λ w'. rw put (
            fields_lem fields (append_fields before (field n v end)) fs whole w'
              (append_fields_assoc before (field n v end) fs ∙ q) h)))

  null_lem :
      (ft : FieldType) (w : Buf)
      → (bs : List ℕ) × Appends l (serialize_entry l schema write (option ft) null) w bs
        × Takes (deserialize_entry l schema read (option ft)) bs null
  unfolding serialize_entry deserialize_entry read_option
  null_lem ft w = (
    0 ∷ [],
    laws.u8_lem 0 w (omega arith),
    Takes-bind read_u8 (read_option (read ft)) (0 ∷ []) [] 0 null (read_u8-Takes 0)
        (Takes-nothing null),
  )

  some_lem :
      (ft : FieldType) (v : Value) (w : Buf)
      → is_null v ≡ false
      → P ft v
      → (bs : List ℕ) × Appends l (serialize_entry l schema write (option ft) v) w bs
        × Takes (deserialize_entry l schema read (option ft)) bs v
  unfolding serialize_entry deserialize_entry read_option
  some_lem ft v w e h = rw e (
      RoundTrips-bind l laws (l.write_u8 (num 1)) (write ft v) read_u8
        (λ flag. read_option (read ft) flag) w 1 v
        (1 ∷ [], laws.u8_lem 1 w (omega arith), read_u8-Takes 1) (below ft v h))

  entry_lem :
      (e : Entry) (v : Value) (w : Buf)
      → FitsEntry P e v
      → (bs : List ℕ) × Appends l (serialize_entry l schema write e v) w bs
        × Takes (deserialize_entry l schema read e) bs v
  entry_lem (option ft) null w h = null_lem ft w
  entry_lem (option ft) undefined w h = some_lem ft undefined w refl h
  entry_lem (option ft) (bool b) w h = some_lem ft (bool b) w refl h
  entry_lem (option ft) (num n) w h = some_lem ft (num n) w refl h
  entry_lem (option ft) (big n) w h = some_lem ft (big n) w refl h
  entry_lem (option ft) (str s) w h = some_lem ft (str s) w refl h
  entry_lem (option ft) (bytes bs) w h = some_lem ft (bytes bs) w refl h
  entry_lem (option ft) (arr items) w h = some_lem ft (arr items) w refl h
  entry_lem (option ft) (obj fs) w h = some_lem ft (obj fs) w refl h
  entry_lem (struct fields) (obj fs) w h =
      unfold serialize_entry deserialize_entry in fields_lem fields end fs fs w refl h
  entry_lem (function ser deser) v w (bs, e, small, took) =
      unfold serialize_entry deserialize_entry in (bs, rw e (laws.buffer_lem bs w small), took)
  entry_lem _ v w h = elim h [ ]

  found_lem :
      (name : String) (v : Value) (w : Buf) (found : Option Entry)
      → find_entry schema name ≡ found
      → FitsFound P found v
      → (bs : List ℕ) × Appends l (serialize_case l schema write (named name) v) w bs
        × Takes (deserialize_case l schema read (named name)) bs v
  unfolding serialize_case deserialize_case
  found_lem name v w none e h = elim h [ ]
  found_lem name v w (some entry) e h = rw e (entry_lem entry v w h)

  case_lem :
      (ft : FieldType) (v : Value) (w : Buf)
      → FitsCase schema P ft v
      → (bs : List ℕ) × Appends l (serialize_case l schema write ft v) w bs
        × Takes (deserialize_case l schema read ft) bs v
  unfolding serialize_case deserialize_case
  case_lem u8 (num n) w h =
      RoundTrips-map l laws (l.write_u8 (num n)) read_u8 num w n
        (n ∷ [], laws.u8_lem n w h, read_u8-Takes n)
  case_lem u64 (big n) w h =
      RoundTrips-map l laws (l.write_u64 (big n)) (read_u64 l.bn_from_le) big w n
        (le_bytes 8 n, laws.u64_lem n w h, read_u64-Takes l.bn_from_le laws.bn_lem n h)
  case_lem u128 (big n) w h =
      RoundTrips-map l laws (l.write_u128 (big n)) (read_u128 l.bn_from_le) big w n
        (le_bytes 16 n, laws.u128_lem n w h, read_u128-Takes l.bn_from_le laws.bn_lem n h)
  case_lem boolean (bool true) w h =
      RoundTrips-map l laws (l.write_u8 (num 1)) read_u8 (λ n. bool (truthy (num n))) w 1
        (1 ∷ [], laws.u8_lem 1 w (omega arith), read_u8-Takes 1)
  case_lem boolean (bool false) w h =
      RoundTrips-map l laws (l.write_u8 (num 0)) read_u8 (λ n. bool (truthy (num n))) w 0
        (0 ∷ [], laws.u8_lem 0 w (omega arith), read_u8-Takes 0)
  case_lem (fixed n) (bytes bs) w (len, small) =
      let same : (length bs == n) ≡ true = (==_iff (length bs) n).1 len in
      rw same (
        RoundTrips-map l laws (l.write_fixed_array (bytes bs)) (read_fixed_array n) bytes w bs
          (bs, laws.fixed_lem bs w small, unfold read_fixed_array in read_buffer-Takes_at n bs len))
  case_lem (array ft) (arr items) w (small, h) = array_lem ft items w small h
  case_lem (named name) v w h = found_lem name v w (find_entry schema name) refl h
  case_lem _ v w h = elim h [ ]

-- Every value of a type is written, and read back.
field_lem :
    {Buf : Type 0} (l : Library Buf) (laws : LibraryLaws l) (schema : Schema) (depth : ℕ)
    (ft : FieldType) (v : Value)
    → Fits schema depth ft v
    → RoundTrips l laws
        (serialize_field l schema depth ft v)
        (deserialize_field l schema depth ft)
        v
unfolding Fits serialize_field deserialize_field
field_lem l laws schema zero ft v h w = elim h [ ]
field_lem l laws schema (suc depth) ft v h w =
    case_lem l laws schema (Fits schema depth) (serialize_field l schema depth)
      (deserialize_field l schema depth) (field_lem l laws schema depth) ft v w h

-- For a writer and a BN as documented, `serialize` accepts every value of a type (strings left out)
-- and `deserialize` reads the value back from the bytes, all of which it takes.
pub deserialize-serialize :
    {Buf : Type 0} (l : Library Buf) (schema : Schema) (depth : ℕ) (ft : FieldType) (v : Value)
    → LibraryLaws l
    → Fits schema depth ft v
    → (bs : List ℕ) × (serialize l schema depth (some ft) v ≡ ok bs)
      × (deserialize l schema depth (some ft) bs ≡ ok v)
unfolding serialize deserialize
deserialize-serialize l schema depth ft v laws h =
    let (bs, (w', e, a), took) = field_lem l laws schema depth ft v h l.new_writer in
    let written : l.to_array w' ≡ bs = a ∙ rw laws.empty in
    (
      bs,
      rw (e, written),
      rw
          (took (record { buf = bs; offset = 0 }) []
            (record { rest = sym (append-nil bs); within = omega arith }))
          (ground arith),
    )
