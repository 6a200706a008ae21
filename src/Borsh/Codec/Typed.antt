-- ===== src/Borsh/Codec/Typed.antt =====
-- What `deserializeField` returns is a value of the type.
use rainbow_bridge.Prelude.{
  ℕ, zero, suc, ◌^◌, ◌<◌, ◌≡◌, refl, ap, inl, inr, String, Option, none, some, List, [], ◌∷◌, ltb,
  ◌==◌, str_eq, Bool-cases, length, All,
}
use rainbow_bridge.Prelude.Js.{Result, ok, err, ◌>>=◌}
use rainbow_bridge.Borsh.Value.{
  Value, null, undefined, bool, num, big, str, bytes, arr, obj, nil, cons, Fields, end, field,
  count, lookup_field, set_field, truthy, IsByte,
}
use rainbow_bridge.Borsh.Reader.{
  Reader, Read, read_u8, read_u32, read_buffer, read_u64, read_u128, read_string, read_fixed_array,
  read_items, read_array,
}
use rainbow_bridge.Borsh.Reader.Bytes.{
  Reads, Reads-bind, Reads-ok, Reads-map, AreBytes, le_value_of, read_u8-Reads, read_buffer-Reads,
  read_u32-Reads, read_string-Reads,
}
use rainbow_bridge.Borsh.Codec.{
  Library, Schema, FieldType, u8, u64, u128, boolean, string, fixed, array, named, Entry, option,
  struct, function, other, find_entry, read_fields, read_option, deserialize_entry,
  deserialize_case, deserialize_field, serialize, deserialize,
}
use rainbow_bridge.Borsh.Codec.Laws.{
  LibraryLaws, AllItems, append_fields, FitsFields, FitsFunction, FitsEntry, FitsFound, FitsCase,
  Fits,
}
use rainbow_bridge.Borsh.Codec.RoundTrip.{deserialize-serialize}
use rainbow_bridge.Borsh.Codec.Steps.{set_field-new, append_fields-end, append_fields_assoc}

-- A new name at every field of a structure, after any values of the fields before.
abbrev pub Fresh : Fields → List (String × FieldType) → Type 0
Fresh before [] = Unit
Fresh before ((name, ft) ∷ fields) =
    (lookup_field before name ≡ none)
    × ((v : Value) → Fresh (append_fields before (field name v end)) fields)

-- The names of a structure's fields differ, and what a function entry reads it writes back.
abbrev pub IsSound : Entry → Type 0
IsSound (struct fields) = Fresh end fields
IsSound (function ser deser) = Reads (FitsFunction ser deser) deser
IsSound e = Unit

abbrev pub SoundSchema : Schema → Type 0
SoundSchema = All (λ (name, e). IsSound e)

find_entry-IsSound :
    (schema : Schema) (name : String) (e : Entry)
    → SoundSchema schema
    → find_entry schema name ≡ some e
    → IsSound e
find_entry-IsSound [] name e h q = cc
find_entry-IsSound ((n, e') ∷ schema) name e (he, h) q = elim (Bool-cases (str_eq n name)) [
  | inl found ↦ let same : e' ≡ e = cc (rw found at q) in rw (← same) he
  | inr later ↦ find_entry-IsSound schema name e h (rw later at q)
]

-- One level of the codec, for a predicate that the level below reads.
module _ {Buf : Type 0} (l : Library Buf) (laws : LibraryLaws l) (schema : Schema)
    (P : FieldType → Value → Type 0) (read : FieldType → Read Value)
    (below : (ft : FieldType) → Reads (P ft) (read ft)) where
  items-Reads :
      (ft : FieldType) (n : ℕ)
      → Reads (λ items. (count items ≡ n) × AllItems (P ft) items) (read_items n (read ft))
  unfolding read_items
  items-Reads ft zero = Reads-ok _ nil (refl, tt)
  items-Reads ft (suc n) =
      Reads-bind (P ft) _ (read ft)
        (λ v r. read_items n (read ft) r >>= λ (items, r'). ok (cons v items, r')) (below ft)
        λ v hv.
          Reads-map (λ items. (count items ≡ n) × AllItems (P ft) items) _ (read_items n (read ft))
            (cons v) (items-Reads ft n) λ items (len, h). (ap suc len, (hv, h))

  fields-Reads :
      (fields : List (String × FieldType)) (before : Fields)
      → Fresh before fields
      → Reads
          (λ v. (fs : Fields) × (v ≡ obj (append_fields before fs)) × FitsFields P before fields fs)
          (read_fields read fields before)
  unfolding read_fields
  fields-Reads [] before h = Reads-ok _ (obj before) (end, rw append_fields-end refl, tt)
  fields-Reads ((name, ft) ∷ fields) before (new, h) =
      Reads-bind (P ft) _ (read ft) (λ v. read_fields read fields (set_field before name v))
        (below ft)
        λ v hv r a r' small e.
          let ((fs, same, fits), stay) =
            fields-Reads fields (append_fields before (field name v end)) (h v) r a r' small
              (rw (set_field-new before name v new) at e) in
          (
            (
              field name v fs,
              rw (append_fields_assoc before (field name v end) fs) at same,
              (refl, new, hv, fits),
            ),
            stay,
          )

  fits_option : (ft : FieldType) (v : Value) → P ft v → FitsEntry P (option ft) v
  fits_option ft null h = tt
  fits_option ft undefined h = h
  fits_option ft (bool b) h = h
  fits_option ft (num n) h = h
  fits_option ft (big n) h = h
  fits_option ft (str s) h = h
  fits_option ft (bytes bs) h = h
  fits_option ft (obj fs) h = h
  fits_option ft (arr items) h = h

  option-Reads :
      (ft : FieldType) (flag : ℕ) → Reads (FitsEntry P (option ft)) (read_option (read ft) flag)
  unfolding read_option
  option-Reads ft flag = elim (Bool-cases (flag == 0)) [
    | inl absent ↦ rw absent (Reads-ok (FitsEntry P (option ft)) null tt)
    | inr present ↦ elim (Bool-cases (flag == 1)) [
      | inl one ↦
          rw (present, one)
            (λ r a r' small e.
              let (h, stay) = below ft r a r' small e in (fits_option ft a h, stay))
      | inr more ↦ rw (present, more) (λ r a r' small e. cc)
    ]
  ]

  entry-Reads : (e : Entry) → IsSound e → Reads (FitsEntry P e) (deserialize_entry l schema read e)
  unfolding deserialize_entry
  entry-Reads (option ft) h =
      Reads-bind IsByte _ read_u8 (read_option (read ft)) read_u8-Reads
        λ flag _. option-Reads ft flag
  entry-Reads (struct fields) h = λ r a r' small e.
      let ((fs, same, fits), stay) = fields-Reads fields end h r a r' small e in
      (rw same fits, stay)
  entry-Reads (function ser deser) h = h
  entry-Reads (other kind) h = λ r a r' small e. cc

  named-Reads :
      (name : String)
      → SoundSchema schema
      → Reads (FitsFound P (find_entry schema name)) (deserialize_case l schema read (named name))
  unfolding deserialize_case
  named-Reads name h r a r' small e = go (find_entry schema name) refl
    where
      go :
          (found : Option Entry)
          → find_entry schema name ≡ found
          → FitsFound P (find_entry schema name) a × (r'.buf ≡ r.buf)
      go none q = cc (rw (q, deserialize_case) at e)
      go (some entry) q = rw q (
          entry-Reads entry (find_entry-IsSound schema name entry h q) r a r' small
            (rw (q, deserialize_case) at e))

  bn_bound : (n : ℕ) (bs : List ℕ) → AreBytes n bs → l.bn_from_le bs < 256 ^ n
  bn_bound n bs h = rw (laws.bn_lem bs) (le_value_of n bs h)

  case-Reads :
      (ft : FieldType)
      → SoundSchema schema
      → Reads (FitsCase schema P ft) (deserialize_case l schema read ft)
  unfolding deserialize_case read_u64 read_u128 read_fixed_array read_array
  case-Reads u8 h = Reads-map IsByte _ read_u8 num read_u8-Reads λ b hb. hb
  case-Reads u64 h =
      Reads-map (λ n. n < 2 ^ 64) _ (read_u64 l.bn_from_le) big
        (Reads-map (AreBytes 8) _ (read_buffer 8) l.bn_from_le (read_buffer-Reads 8) (bn_bound 8))
        λ n hn. hn
  case-Reads u128 h =
      Reads-map (λ n. n < 2 ^ 128) _ (read_u128 l.bn_from_le) big
        (Reads-map (AreBytes 16) _ (read_buffer 16) l.bn_from_le (read_buffer-Reads 16)
          (bn_bound 16))
        λ n hn. hn
  case-Reads boolean h =
      Reads-map IsByte _ read_u8 (λ b. bool (truthy (num b))) read_u8-Reads λ b hb. tt
  case-Reads string h =
      Reads-map (λ s. ⊥) _ read_string str read_string-Reads λ s absent. absurd absent
  case-Reads (fixed n) h =
      Reads-map (AreBytes n) _ (read_buffer n) bytes (read_buffer-Reads n) λ bs hbs. hbs
  case-Reads (array ft) h =
      Reads-bind (λ n. n < 2 ^ 32) _ read_u32
        (λ n r. read_items n (read ft) r >>= λ (items, r'). ok (arr items, r')) read_u32-Reads
        λ n hn.
          Reads-map (λ items. (count items ≡ n) × AllItems (P ft) items) _ (read_items n (read ft))
            arr (items-Reads ft n) λ items (len, hs). (rw len hn, hs)
  case-Reads (named name) h = named-Reads name h

module _ {Buf : Type 0} (l : Library Buf) (laws : LibraryLaws l) (schema : Schema)
    (sound : SoundSchema schema) where
  deserialize_field-Fits :
      (depth : ℕ) (ft : FieldType)
      → Reads (Fits schema depth ft) (deserialize_field l schema depth ft)
  unfolding deserialize_field Fits
  deserialize_field-Fits zero ft = λ r a r' small e. cc
  deserialize_field-Fits (suc depth) ft =
      case-Reads l laws schema (Fits schema depth) (deserialize_field l schema depth)
        (deserialize_field-Fits depth) ft sound

  value-Fits :
      (depth : ℕ) (ft : FieldType) (buffer : List ℕ) (v : Value)
      → All IsByte buffer
      → deserialize l schema depth (some ft) buffer ≡ ok v
      → Fits schema depth ft v
  unfolding deserialize
  value-Fits depth ft buffer v h e =
      go (deserialize_field l schema depth ft (record { buf = buffer; offset = 0 })) refl
    where
      go :
          (x : Result (Value × Reader))
          → deserialize_field l schema depth ft (record { buf = buffer; offset = 0 }) ≡ x
          → Fits schema depth ft v
      go (err x) q = cc (rw (q, deserialize) at e)
      go (ok (v', r)) q =
          let (fits, stay) =
            deserialize_field-Fits depth ft (record { buf = buffer; offset = 0 }) v' r h q in
          elim (Bool-cases (ltb r.offset (length buffer))) [
            | inl more ↦ cc (rw more at (rw (q, deserialize) at e))
            | inr all ↦
                let same : v' ≡ v = cc (rw all at (rw (q, deserialize) at e)) in rw (← same) fits
          ]

  -- On bytes, under a schema whose structures have different names for their fields and whose
  -- functions write back what they read, `deserialize` throws or returns a value of the type, within
  -- the ranges of its numbers; and `serialize` accepts this value, and it is read back.
  pub deserialize-Fits :
      (depth : ℕ) (ft : FieldType) (buffer : List ℕ) (v : Value)
      → All IsByte buffer
      → deserialize l schema depth (some ft) buffer ≡ ok v
      → Fits schema depth ft v
        × ((bs : List ℕ) × (serialize l schema depth (some ft) v ≡ ok bs)
            × (deserialize l schema depth (some ft) bs ≡ ok v))
  deserialize-Fits depth ft buffer v h e =
      let fits : Fits schema depth ft v = value-Fits depth ft buffer v h e in
      (fits, deserialize-serialize l schema depth ft v laws fits)
