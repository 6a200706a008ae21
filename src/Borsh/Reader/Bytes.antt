-- ===== src/Borsh/Reader/Bytes.antt =====
-- What the reader's calls return, from a buffer of bytes.
use rainbow_bridge.Prelude.{
  ℕ, ◌+◌, ◌^◌, ◌<◌, ◌≡◌, refl, ap, inl, inr, arith, false, List, [], ◌∷◌, ltb, ltb→le, Bool-cases,
  length, take, drop, length-take, length-drop, All, All-take, All-drop,
}
use native.Mathlib.Nat.{pow-suc}
use rainbow_bridge.Prelude.Js.{Result, ok, err, ◌>>=◌}
use rainbow_bridge.Borsh.Value.{IsByte, le_value}
use rainbow_bridge.Borsh.Reader.{Reader, skip, Read, read_u8, read_u32, read_buffer, read_string}

-- On bytes, what the call returns has the property, and the bytes stay as they are.
abbrev pub Reads : {A : Type 0} → (A → Type 0) → Read A → Type 0
Reads {A} P m =
    (r : Reader) (a : A) (r' : Reader)
    → All IsByte r.buf
    → m r ≡ ok (a, r')
    → P a × (r'.buf ≡ r.buf)

pub Reads-bind :
    {A B : Type 0} (P : A → Type 0) (Q : B → Type 0) (m : Read A) (k : A → Read B)
    → Reads P m
    → ((a : A) → P a → Reads Q (k a))
    → Reads Q (λ r. m r >>= λ (a, r'). k a r')
Reads-bind {A} {B} P Q m k hm hk r b r' h e = go (m r) refl
  where
    go : (x : Result (A × Reader)) → m r ≡ x → Q b × (r'.buf ≡ r.buf)
    go (err x) q = cc (rw q at e)
    go (ok (a, r1)) q =
        let (ha, same) = hm r a r1 h q in
        let (hb, same') = hk a ha r1 b r' (rw same h) (rw q at e) in (hb, rw (same', same) refl)

pub parts :
    {A : Type 0} (a a' : A) (r r' : Reader)
    → Path (Result (A × Reader)) (ok (a, r)) (ok (a', r'))
    → (a ≡ a') × (r ≡ r')
parts {A} a a' r r' e =
    let p : Path (A × Reader) (a, r) (a', r') = cc in (ap (λ x. x.0) p, ap (λ x. x.1) p)

pub Reads-ok : {A : Type 0} (P : A → Type 0) (a : A) → P a → Reads P (λ r. ok (a, r))
Reads-ok P a h r a' r' small e =
    let (same, stay) = parts a a' r r' e in (rw (← same) h, rw (← stay) refl)

pub Reads-map :
    {A B : Type 0} (P : A → Type 0) (Q : B → Type 0) (m : Read A) (f : A → B)
    → Reads P m
    → ((a : A) → P a → Q (f a))
    → Reads Q (λ r. m r >>= λ (a, r'). ok (f a, r'))
Reads-map P Q m f hm hf = Reads-bind P Q m (λ a r. ok (f a, r)) hm λ a h. Reads-ok Q (f a) (hf a h)

le_value_bound : (bs : List ℕ) → All IsByte bs → le_value bs < 256 ^ length bs
unfolding le_value
le_value_bound [] h = omega arith
le_value_bound (b ∷ bs) (hb, h) = omega (arith, le_value_bound bs h, pow-suc 256 (length bs))

-- This many bytes.
abbrev pub AreBytes : ℕ → List ℕ → Type 0
AreBytes n bs = (length bs ≡ n) × All IsByte bs

pub read_u8-Reads : Reads IsByte read_u8
unfolding read_u8
read_u8-Reads r b r' h e = go (drop r.offset r.buf) refl
  where
    go : (bs : List ℕ) → drop r.offset r.buf ≡ bs → IsByte b × (r'.buf ≡ r.buf)
    go [] q = cc (rw (q, read_u8) at e)
    go (b' ∷ bs) q =
        let (same, stay) = parts b' b (skip r 1) r' (rw (q, read_u8) at e) in
        let (byte, rest) : IsByte b' × All IsByte bs = rw q at (All-drop IsByte r.offset r.buf h) in
        (rw (← same) byte, rw (← stay) refl)

-- The bytes at the offset, where there are as many.
at_offset :
    (n : ℕ) (r : Reader)
    → All IsByte r.buf
    → ltb (length r.buf) (r.offset + n) ≡ false
    → AreBytes n (take n (drop r.offset r.buf))
at_offset n r h fits = (
  length-take n (drop r.offset r.buf)
      (omega (arith, length-drop r.offset r.buf, ltb→le (length r.buf) (r.offset + n) fits)),
  All-take IsByte n (drop r.offset r.buf) (All-drop IsByte r.offset r.buf h),
)

pub read_buffer-Reads : (n : ℕ) → Reads (AreBytes n) (read_buffer n)
unfolding read_buffer
read_buffer-Reads n r bs r' h e = elim (Bool-cases (ltb (length r.buf) (r.offset + n))) [
  | inl short ↦ cc (rw (short, read_buffer) at e)
  | inr fits ↦
      let (same, stay) =
        parts (take n (drop r.offset r.buf)) bs (skip r n) r' (rw (fits, read_buffer) at e) in
      (rw (← same) (at_offset n r h fits), rw (← stay) refl)
]

pub le_value_of : (n : ℕ) (bs : List ℕ) → AreBytes n bs → le_value bs < 256 ^ n
le_value_of n bs (len, h) = rw len at (le_value_bound bs h)

pub read_u32-Reads : Reads (λ n. n < 2 ^ 32) read_u32
unfolding read_u32
read_u32-Reads r n r' h e = elim (Bool-cases (ltb (length r.buf) (r.offset + 4))) [
  | inl short ↦ cc (rw (short, read_u32) at e)
  | inr fits ↦
      let (same, stay) =
        parts (le_value (take 4 (drop r.offset r.buf))) n (skip r 4) r'
          (rw (fits, read_u32) at e) in
      (
        rw (← same) (le_value_of 4 (take 4 (drop r.offset r.buf)) (at_offset 4 r h fits)),
        rw (← stay) refl,
      )
]

-- A text is never read.
pub read_string-Reads : Reads (λ s. ⊥) read_string
unfolding read_string
read_string-Reads =
    Reads-bind (λ n. n < 2 ^ 32) _ read_u32 _ read_u32-Reads
      λ len _.
        Reads-bind (AreBytes len) _ (read_buffer len) _ (read_buffer-Reads len)
          λ bs _ r a r' small e. cc
