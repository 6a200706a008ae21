-- ===== src/Borsh/Borshify/Encodes.antt =====
-- Encodings against decoders, piece by piece.
use rainbow_bridge.Prelude.{
  ℕ, ◌^◌, ◌<◌, ◌≡◌, refl, Bool, true, false, some, List, [], ◌∷◌, ◌++◌, map, arith, ltb, length,
  take-append, drop-append, length-append, append_assoc, All,
}
use rainbow_bridge.Prelude.Js.{Result, ok, err}
use rainbow_bridge.Borsh.Value.{le_bytes, length-le_bytes, le_value-le_bytes}
use rainbow_bridge.Borsh.Borshify.{concat}
use rainbow_bridge.Borsh.Borshify.Decoder.{Decoder, ◌>>=◌, pure, require, read, decode_uint, repeat}

-- The decoder takes exactly the bytes and returns the value, whatever follows.
abbrev pub Decodes : {A : Type 0} → Decoder A → List ℕ → A → Type 0
Decodes d bs a = (rest : List ℕ) → d (bs ++ rest) ≡ some (a, rest)

-- An encoding that does not throw and that the decoder takes.
pub record Encodes {A : Type 0} (e : Result (List ℕ)) (d : Decoder A) (a : A) : Type 0 where
  pub written : List ℕ
  pub result : e ≡ ok written
  pub decodes : Decodes d written a

pub written_eq : (xs ys : List ℕ) → Path (Result (List ℕ)) (ok ys) (ok xs) → xs ≡ ys
written_eq xs ys h = cc

pub concat-append :
    (es fs : List (Result (List ℕ))) (xs ys : List ℕ)
    → concat es ≡ ok xs
    → concat fs ≡ ok ys
    → concat (es ++ fs) ≡ ok (xs ++ ys)
unfolding concat
concat-append [] fs xs ys h k = let e : xs ≡ [] = written_eq xs [] h in rw (e, k)
concat-append (err x ∷ es) fs xs ys h k = cc
concat-append (ok x ∷ es) fs xs ys h k = go (concat es) refl (λ zs q. concat-append es fs zs ys q k)
  where
    go :
        (r : Result (List ℕ))
        → concat es ≡ r
        → ((zs : List ℕ) → concat es ≡ ok zs → concat (es ++ fs) ≡ ok (zs ++ ys))
        → concat ((ok x ∷ es) ++ fs) ≡ ok (xs ++ ys)
    go (err z) q ih = cc (rw q at h)
    go (ok zs) q ih =
        let e : xs ≡ x ++ zs = written_eq xs (x ++ zs) (rw q at h) in rw (ih zs q, e, append_assoc)

module _ {A B : Type 0} where
  pub Encodes-append :
      (es fs : List (Result (List ℕ))) (d : Decoder A) (f : A → Decoder B) (a : A) (b : B)
      → Encodes (concat es) d a
      → Encodes (concat fs) (f a) b
      → Encodes (concat (es ++ fs)) (d >>= f) b
  Encodes-append es fs d f a b h k = record {
    written = h.written ++ k.written;
    result = concat-append es fs h.written k.written h.result k.result;
    decodes = λ rest. rw (append_assoc, h.decodes (k.written ++ rest)) (k.decodes rest);
  }

  pub Encodes-cons :
      (e : Result (List ℕ)) (fs : List (Result (List ℕ))) (d : Decoder A) (f : A → Decoder B)
      (a : A) (b : B)
      → Encodes e d a
      → Encodes (concat fs) (f a) b
      → Encodes (concat (e ∷ fs)) (d >>= f) b
  unfolding concat
  Encodes-cons e fs d f a b h k = record {
    written = h.written ++ k.written;
    result = rw (h.result, k.result);
    decodes = λ rest. rw (append_assoc, h.decodes (k.written ++ rest)) (k.decodes rest);
  }

pub Encodes-nil : {A : Type 0} (a : A) → Encodes (concat []) (pure a) a
unfolding concat
Encodes-nil a = record { written = []; result = refl; decodes = λ rest. refl }

-- The decoder reads on without taking a byte.
pub Encodes-require :
    {B : Type 0} (e : Result (List ℕ)) (b : Bool) (f : Unit {0} → Decoder B) (v : B)
    → b ≡ true
    → Encodes e (f tt) v
    → Encodes e (require b >>= f) v
Encodes-require e b f v t h = record {
  written = h.written;
  result = h.result;
  decodes = λ rest. rw t (h.decodes rest);
}

pub read_lem : (n : ℕ) (bs : List ℕ) → length bs ≡ n → Decodes (read n) bs bs
unfolding read
read_lem n bs e rest =
    let fits : ltb (length (bs ++ rest)) n ≡ false = ground (arith, length-append bs rest) in
    rw fits (rw (← e) (rw (take-append, drop-append)))

pub Encodes-read :
    (n : ℕ) (e : Result (List ℕ)) (bs : List ℕ) → e ≡ ok bs → length bs ≡ n → Encodes e (read n) bs
Encodes-read n e bs q len = record { written = bs; result = q; decodes = read_lem n bs len }

pub Encodes-uint :
    (n v : ℕ) (e : Result (List ℕ))
    → v < 256 ^ n
    → e ≡ ok (le_bytes n v)
    → Encodes e (decode_uint n) v
unfolding decode_uint
Encodes-uint n v e small q = record {
  written = le_bytes n v;
  result = q;
  decodes = λ rest.
      rw (read_lem n (le_bytes n v) (length-le_bytes n v) rest, le_value-le_bytes n v small);
}

pub Encodes-map :
    {A B : Type 0} (e : Result (List ℕ)) (d : Decoder A) (f : A → B) (a : A)
    → Encodes e d a
    → Encodes e (d >>= λ v. pure (f v)) (f a)
Encodes-map e d f a h = record {
  written = h.written;
  result = h.result;
  decodes = λ rest. rw (h.decodes rest);
}

pub Encodes-repeat :
    {X A : Type 0} (encode : X → Result (List ℕ)) (d : Decoder A) (view : X → A) (P : X → Type 0)
    → ((x : X) → P x → Encodes (encode x) d (view x))
    → (xs : List X) → All P xs
    → Encodes (concat (map encode xs)) (repeat (length xs) d) (map view xs)
unfolding repeat
Encodes-repeat encode d view P each [] h = Encodes-nil []
Encodes-repeat encode d view P each (x ∷ xs) (hx, h) =
    Encodes-cons (encode x) (map encode xs) d
      (λ a. repeat (length xs) d >>= λ more. pure (a ∷ more)) (view x) (view x ∷ map view xs)
      (each x hx)
      (Encodes-map (concat (map encode xs)) (repeat (length xs) d) (λ more. view x ∷ more)
        (map view xs) (Encodes-repeat encode d view P each xs h))
