-- ===== src/Borsh/Codec/Steps.antt =====
-- Fields of objects, and round trips of one call after another.
use rainbow_bridge.Prelude.{
  ℕ, ◌≡◌, refl, sym, ap, String, none, some, List, [], ◌++◌, arith, eq_iff, append-nil,
  append_assoc,
}
use rainbow_bridge.Prelude.Js.{Result, ok, ◌>>=◌}
use rainbow_bridge.Borsh.Value.{Value, Fields, end, field, lookup_field, set_field}
use rainbow_bridge.Borsh.Reader.{Read}
use rainbow_bridge.Borsh.Reader.At.{Takes, Takes-bind, Takes-map, Takes-nothing}
use rainbow_bridge.Borsh.Codec.{Library}
use rainbow_bridge.Borsh.Codec.Laws.{Appends, LibraryLaws, append_fields}

pub lookup-append_fields :
    (before : Fields) (n : String) (v : Value) (fs : Fields)
    → lookup_field before n ≡ none
    → lookup_field (append_fields before (field n v fs)) n ≡ some v
lookup-append_fields end n v fs e = ground (arith, eq_iff n n)
lookup-append_fields (field m w gs) n v fs e = ground (arith, lookup-append_fields gs n v fs)

pub set_field-new :
    (before : Fields) (n : String) (v : Value)
    → lookup_field before n ≡ none
    → set_field before n v ≡ append_fields before (field n v end)
set_field-new end n v e = refl
set_field-new (field m w gs) n v e = ground (arith, set_field-new gs n v)

pub append_fields-end : (fs : Fields) → append_fields fs end ≡ fs
append_fields-end end = refl
append_fields-end (field n v fs) = ap (field n v) (append_fields-end fs)

pub append_fields_assoc :
    (before fs gs : Fields)
    → append_fields (append_fields before fs) gs ≡ append_fields before (append_fields fs gs)
append_fields_assoc end fs gs = refl
append_fields_assoc (field m w hs) fs gs = ap (field m w) (append_fields_assoc hs fs gs)

module _ {Buf : Type 0} (l : Library Buf) (laws : LibraryLaws l) where
  -- Writing `v` appends bytes from which the read returns `v`.
  abbrev pub RoundTrips : (Buf → Result Buf) → Read Value → Value → Type 0
  RoundTrips write read v = (w : Buf) → (bs : List ℕ) × Appends l write w bs × Takes read bs v

  -- What two calls append, one after the other.
  pub Appends-bind :
      (f g : Buf → Result Buf) (w : Buf) (xs ys : List ℕ)
      → (a : Appends l f w xs) → Appends l g a.0 ys
      → Appends l (λ u. f u >>= g) w (xs ++ ys)
  Appends-bind f g w xs ys (w', e, a) (w'', e', a') = (w'', rw e e', rw (a', a, append_assoc))

  pub RoundTrips-bind :
      {A : Type 0} {B : Type 0} (f g : Buf → Result Buf) (m : Read A) (k : A → Read B) (w : Buf)
      (a : A) (b : B)
      → (xs : List ℕ) × Appends l f w xs × Takes m xs a
      → ((w' : Buf) → (ys : List ℕ) × Appends l g w' ys × Takes (k a) ys b)
      → (bs : List ℕ) × Appends l (λ u. f u >>= g) w bs
        × Takes (λ r. m r >>= λ (v, r'). k v r') bs b
  RoundTrips-bind f g m k w a b (xs, wrote, took) next =
      let (ys, wrote', took') = next wrote.0 in
      (xs ++ ys, Appends-bind f g w xs ys wrote wrote', Takes-bind m k xs ys a b took took')

  pub RoundTrips-map :
      {A B : Type 0} (f : Buf → Result Buf) (m : Read A) (h : A → B) (w : Buf) (a : A)
      → (xs : List ℕ) × Appends l f w xs × Takes m xs a
      → (xs : List ℕ) × Appends l f w xs × Takes (λ r. m r >>= λ (v, r'). ok (h v, r')) xs (h a)
  RoundTrips-map f m h w a (xs, wrote, took) = (xs, wrote, Takes-map m h xs a took)

  pub nothing :
      {A : Type 0} (w : Buf) (a : A)
      → (bs : List ℕ) × Appends l ok w bs × Takes (λ r. ok (a, r)) bs a
  nothing w a = ([], (w, refl, sym (append-nil (l.to_array w))), Takes-nothing a)
