-- ===== src/Borsh/Reader/At.antt =====
-- Reading bytes that stand at the reader's offset, and the offset's bound.
use rainbow_bridge.Prelude.{
  ℕ, zero, suc, ◌+◌, ◌^◌, ◌≤◌, ◌<◌, ◌≡◌, refl, ap, ◌∙◌, false, List, [], ◌∷◌, ◌++◌, arith, ltb,
  length, take, drop, length-append, length-drop, drop-append, take-append, append_assoc,
}
use Prim.Native.Nat.add
use native.Mathlib.Nat.{zero-add}
use mathlib.Core.Path.{subst}
use rainbow_bridge.Prelude.Js.{ok, ◌>>=◌}
use rainbow_bridge.Borsh.Value.{le_value, le_bytes, length-le_bytes, le_value-le_bytes}
use rainbow_bridge.Borsh.Reader.{
  Reader, skip, Read, read_u8, read_u32, read_buffer, read_u64, read_u128,
}

-- The bytes from the offset on, which lies within the buffer.
pub record At (r : Reader) (xs : List ℕ) : Type 0 where
  pub rest : drop r.offset r.buf ≡ xs
  pub within : r.offset ≤ length r.buf

-- A read takes exactly `bs` and returns `v`, whatever follows.
abbrev pub Takes : {A : Type 0} → Read A → List ℕ → A → Type 0
Takes read bs v =
    (r : Reader) (rest : List ℕ) → At r (bs ++ rest) → read r ≡ ok (v, skip r (length bs))

drop_nil : (n : ℕ) → drop {A = ℕ} n [] ≡ []
drop_nil zero = refl
drop_nil (suc n) = refl

drop-add : (m n : ℕ) (xs : List ℕ) → drop (m + n) xs ≡ drop n (drop m xs)
drop-add zero n xs = rw zero-add
drop-add (suc m) n [] = rw (drop_nil (suc m + n), drop_nil n)
drop-add (suc m) n (x ∷ xs) = rw (add.suc m n) (drop-add m n xs)

pub length-At : (r : Reader) (xs : List ℕ) → At r xs → length r.buf ≡ r.offset + length xs
length-At r xs h = omega (arith, length-drop r.offset r.buf, ap length h.rest, h.within)

pub At-skip : (r : Reader) (bs rest : List ℕ) → At r (bs ++ rest) → At (skip r (length bs)) rest
At-skip r bs rest h = record {
  rest = drop-add r.offset (length bs) r.buf ∙ ap (drop (length bs)) h.rest ∙ drop-append bs rest;
  within = omega (arith, length-At r (bs ++ rest) h, length-append bs rest);
}

-- The bound check of a read of `n` bytes that are there.
room :
    (r : Reader) (bs rest : List ℕ)
    → At r (bs ++ rest)
    → ltb (length r.buf) (r.offset + length bs) ≡ false
room r bs rest h = ground (arith, length-At r (bs ++ rest) h, length-append bs rest)

pub read_buffer-Takes : (bs : List ℕ) → Takes (read_buffer (length bs)) bs bs
unfolding read_buffer
read_buffer-Takes bs r rest h = rw (room r bs rest h, h.rest, take-append)

pub read_buffer-Takes_at : (n : ℕ) (bs : List ℕ) → length bs ≡ n → Takes (read_buffer n) bs bs
read_buffer-Takes_at n bs e = subst (λ k. Takes (read_buffer k) bs bs) e (read_buffer-Takes bs)

pub read_u8-Takes : (b : ℕ) → Takes read_u8 (b ∷ []) b
unfolding read_u8
read_u8-Takes b r rest h = rw (h.rest, read_u8)

u32_value : (bs : List ℕ) → length bs ≡ 4 → Takes read_u32 bs (le_value bs)
unfolding read_u32
u32_value bs e r rest h =
    let fits : ltb (length r.buf) (r.offset + 4) ≡ false = rw e at (room r bs rest h) in
    let taken : take 4 (bs ++ rest) ≡ bs = rw e at (take-append bs rest) in
    rw (fits, h.rest, taken, e)

pub read_u32-Takes : (n : ℕ) → n < 2 ^ 32 → Takes read_u32 (le_bytes 4 n) n
read_u32-Takes n small r rest h =
    u32_value (le_bytes 4 n) (length-le_bytes 4 n) r rest h
    ∙ rw (le_value-le_bytes 4 n (omega arith))

-- The integers, for a BN that reads little-endian bytes as documented.
module _ (bn_from_le : List ℕ → ℕ) (documented : (bs : List ℕ) → bn_from_le bs ≡ le_value bs) where
  pub read_u64-Takes : (n : ℕ) → n < 2 ^ 64 → Takes (read_u64 bn_from_le) (le_bytes 8 n) n
  unfolding read_u64
  read_u64-Takes n small r rest h = rw (
    read_buffer-Takes_at 8 (le_bytes 8 n) (length-le_bytes 8 n) r rest h,
    documented,
    le_value-le_bytes 8 n (omega arith),
  )

  pub read_u128-Takes : (n : ℕ) → n < 2 ^ 128 → Takes (read_u128 bn_from_le) (le_bytes 16 n) n
  unfolding read_u128
  read_u128-Takes n small r rest h = rw (
    read_buffer-Takes_at 16 (le_bytes 16 n) (length-le_bytes 16 n) r rest h,
    documented,
    le_value-le_bytes 16 n (omega arith),
  )

pub skip-skip :
    (r : Reader) (xs ys : List ℕ)
    → skip (skip r (length xs)) (length ys) ≡ skip r (length (xs ++ ys))
skip-skip r xs ys = ap (λ (o : ℕ). record r { offset = o }) (omega (arith, length-append xs ys))

-- One read after another takes the bytes of both.
pub Takes-bind :
    {A B : Type 0} (m : Read A) (f : A → Read B) (xs ys : List ℕ) (a : A) (b : B)
    → Takes m xs a
    → Takes (f a) ys b
    → Takes (λ r. m r >>= λ (v, r'). f v r') (xs ++ ys) b
Takes-bind m f xs ys a b hm hf r rest h =
    let h' : At r (xs ++ (ys ++ rest)) = rw (← append_assoc xs ys rest) h in
    rw (
      hm r (ys ++ rest) h',
      hf (skip r (length xs)) rest (At-skip r xs (ys ++ rest) h'),
      skip-skip r xs ys,
    )

pub Takes-map :
    {A B : Type 0} (m : Read A) (f : A → B) (xs : List ℕ) (a : A)
    → Takes m xs a
    → Takes (λ r. m r >>= λ (v, r'). ok (f v, r')) xs (f a)
Takes-map m f xs a hm r rest h = rw (hm r rest h)

pub Takes-nothing : {A : Type 0} (a : A) → Takes (λ r. ok (a, r)) [] a
Takes-nothing a r rest h = ap (λ (o : ℕ). ok (a, record r { offset = o })) (omega arith)
