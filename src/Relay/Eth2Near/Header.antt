-- ===== src/Relay/Eth2Near/Header.antt =====
-- `submitBlock` of eth2near/eth2near-block-relay/index.js: the arguments of `add_block_header` from the
-- output of ethashproof. web3's `padLeft` and `hexToBytes` are parameters;
-- their texts are ASCII, so that `substr(2)` drops two bytes.
pub mod Nodes
use rainbow_bridge.Prelude.{
  ℕ, zero, suc, ◌+◌, ◌*◌, ◌-◌, ◌%◌, String, Option, none, some, List, [], ◌∷◌, map, arith, ◌==◌,
  if◌then◌else◌, length, take, drop, get_elem?,
}
use Prim.Native.String.{◌++◌ as text_append, slice as text_slice, len as text_length}
use rainbow_bridge.Prelude.Js.{Result, ok, err, type_error, ◌>>=◌}
use rainbow_bridge.Borsh.Value.{
  Value, num, str, arr, obj, Items, nil, cons, Fields, end, field, or_undefined,
}
use rainbow_bridge.Borsh.Codec.{Library, Schema, named, serialize}

-- What ethashproof prints.
pub record ParsedBlock : Type 0 where
  pub header_rlp : String
  pub elements : List String
  pub merkle_proofs : List String
  pub proof_length : ℕ

module _ {ℓ} {A : Type ℓ} where
  -- `.filter((_, index) => index % 2 === 0)`, from the index of the first.
  unfoldable pub evens : ℕ → List A → List A
  evens i [] = []
  evens i (x ∷ xs) = let rest = evens (i + 1) xs in if i % 2 == 0 then x ∷ rest else rest

  -- `.slice(from, to)`.
  abbrev pub slice : List A → ℕ → ℕ → List A
  slice xs from to = take (to - from) (drop from xs)

module _ {ℓ κ} {A : Type ℓ} {B : Type κ} where
  -- `.map((element, index) => ...)`, from the index of the first.
  unfoldable pub map_index : (A → ℕ → B) → ℕ → List A → List B
  map_index f i [] = []
  map_index f i (x ∷ xs) = f x i ∷ map_index f (i + 1) xs

  -- Each element at an even index with the one after it, `xs[index * 2 + 1]`.
  unfoldable pub pair_up : (A → Option A → ℕ → B) → List A → List B
  pair_up f xs = map_index (λ x i. f x (get_elem? xs (i * 2 + 1)) i) 0 (evens 0 xs)

-- The results of a list of calls, or the first error.
unfoldable pub all_ok {ℓ} : {A : Type ℓ} → List (Result A) → Result (List A)
all_ok [] = ok []
all_ok (r ∷ rs) = do x ← r; xs ← all_ok rs; ok (x ∷ xs)

unfoldable pub items_of : List Value → Items
items_of [] = nil
items_of (v ∷ vs) = cons v (items_of vs)

module _ (pad_left : String → ℕ → String) (hex_to_bytes : Value → Result (List ℕ)) where
  abbrev pub join : String → String → String
  join a b =
      text_append (pad_left a 64) (text_slice (pad_left b 64) 2 (text_length (pad_left b 64)))

  -- `padLeft` of `undefined` throws.
  abbrev pub h512 : String → Option String → ℕ → Result String
  h512 a none i = err (type_error "Cannot read property 'toString' of undefined")
  h512 a (some b) i = ok (join a b)

  abbrev pub text_or_undefined : Option String → Value
  text_or_undefined none = or_undefined none
  text_or_undefined (some s) = str s

  unfoldable pub node : List String → ℕ → String → Option String → ℕ → Value
  node merkle_proofs proof_length element next i = obj (
      field "dag_nodes" (arr (cons (str element) (cons (text_or_undefined next) nil))) (
        field "proof"
          (arr (
            items_of (
              map (λ leaf. str (pad_left leaf 32))
                (slice merkle_proofs (i * proof_length) ((i + 1) * proof_length)))))
          end))

  unfoldable pub header_input : ParsedBlock → Result Value
  header_input block = do
    h512s ← all_ok (pair_up h512 block.elements)
    header ← hex_to_bytes (str block.header_rlp)
    ok (
        obj (
          field "block_header" (arr (items_of (map num header))) (
            field "dag_nodes"
              (arr (items_of (pair_up (node block.merkle_proofs block.proof_length) h512s))) end)))

  -- The arguments of the action. A block that is `undefined` has no elements.
  unfoldable pub submit_block :
      {Buf : Type 0} → Library Buf → Schema → ℕ → Option ParsedBlock → Result (List ℕ)
  submit_block l schema depth none = err (type_error "Cannot read property 'elements' of undefined")
  submit_block l schema depth (some block) = do
    input ← header_input block
    serialize l schema depth (some (named "addBlockHeaderInput")) input
