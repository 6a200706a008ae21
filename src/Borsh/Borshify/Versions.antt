-- ===== src/Borsh/Borshify/Versions.antt =====
-- A block producer of the second version, which the contract decodes with one more field.
use rainbow_bridge.Prelude.{
  ℕ, ◌^◌, ◌<◌, ◌≡◌, refl, sym, ap, ◌∙◌, Bool, not, some, List, [], ◌∷◌, ◌++◌, arith, ◌==◌, length,
  append_assoc,
}
use rainbow_bridge.Prelude.Js.{Result, ok}
use rainbow_bridge.Borsh.Value.{le_bytes}
use rainbow_bridge.Borsh.Borshify.{
  Coders, concat, BlockProducer, stake_version, key_type, borshify_producer,
}
use rainbow_bridge.Borsh.Borshify.Decoder.{
  Decoder, ◌>>=◌, decode_chunk_only, SolProducer, decode_producer,
}
use rainbow_bridge.Borsh.Borshify.Encodes.{
  Encodes, Encodes-cons, Encodes-require, Encodes-read, concat-append, written_eq,
}
use rainbow_bridge.Borsh.Borshify.Parts.{
  IsLittleEndian, bytes_of, IsHash, hash_lem, uint_lem, byte_lem, byte_decodes,
}

-- A producer of the second version with an ed25519 key.
pub record IsSecondVersion (coders : Coders) (bp : BlockProducer) : Type 0 where
  pub version : stake_version bp.struct_version ≡ 1
  pub name : length bp.account_id < 2 ^ 32
  pub kind : key_type bp.public_key ≡ 0
  pub key : IsHash coders bp.public_key.body
  pub stake : bp.stake < 2 ^ 128

module _ (coders : Coders) (le : IsLittleEndian coders) (bp : BlockProducer)
    (h : IsSecondVersion coders bp) (x : ℕ) where
  abbrev seen : SolProducer
  seen = record {
    public_key = bytes_of coders bp.public_key.body;
    stake = bp.stake;
    is_chunk_only = not (x == 0);
  }

  abbrev fields : List (Result (List ℕ))
  fields =
      ok (stake_version bp.struct_version ∷ [])
      ∷ coders.to_le 4 (length bp.account_id)
      ∷ ok bp.account_id
      ∷ ok (key_type bp.public_key ∷ [])
      ∷ coders.bs58_decode bp.public_key.body
      ∷ coders.to_le 16 bp.stake
      ∷ []

  abbrev fields_bytes : List ℕ
  fields_bytes =
      (stake_version bp.struct_version ∷ [])
      ++ (le_bytes 4 (length bp.account_id)
          ++ (bp.account_id
              ++ ((key_type bp.public_key ∷ [])
                  ++ (bytes_of coders bp.public_key.body ++ (le_bytes 16 bp.stake ++ [])))))

  fields_written : concat fields ≡ ok fields_bytes
  unfolding concat
  fields_written = rw (
    le 4 (length bp.account_id) (omega (arith, h.name)),
    h.key.0,
    le 16 bp.stake (omega (arith, h.stake)),
  )

  flag_lem :
      {B : Type 0} (version : ℕ) (f : Bool → Decoder B) (v : B)
      → version ≡ 1
      → ((rest : List ℕ) → f (not (x == 0)) rest ≡ some (v, rest))
      → Encodes (concat (ok (x ∷ []) ∷ [])) (decode_chunk_only version >>= f) v
  unfolding decode_chunk_only concat
  flag_lem version f v one k = record {
    written = x ∷ [];
    result = refl;
    decodes = λ rest. rw one (rw (byte_decodes coders le x rest) (k rest));
  }

  with_flag : Encodes (concat (fields ++ ok (x ∷ []) ∷ [])) decode_producer seen
  unfolding decode_producer
  with_flag = Encodes-cons _ _ _ _ (stake_version bp.struct_version) _ (byte_lem coders le _) (
      Encodes-cons _ _ _ _ (length bp.account_id) _ (uint_lem coders le 4 _ (omega (arith, h.name)))
        (Encodes-cons _ _ _ _ bp.account_id _ (Encodes-read _ _ _ refl refl) (
          Encodes-cons _ _ _ _ (key_type bp.public_key) _ (byte_lem coders le _) (
            Encodes-require _ (key_type bp.public_key == 0) _ _ (rw h.kind) (
              Encodes-cons _ _ _ _ (bytes_of coders bp.public_key.body) _
                (hash_lem coders le _ h.key)
                (Encodes-cons _ _ _ _ bp.stake _ (uint_lem coders le 16 _ (omega (arith, h.stake)))
                  (flag_lem (stake_version bp.struct_version) _ seen h.version (λ rest. refl))))))))

  written_with_flag : with_flag.written ≡ fields_bytes ++ x ∷ []
  unfolding concat
  written_with_flag = written_eq with_flag.written (fields_bytes ++ x ∷ []) (
      sym (concat-append fields (ok (x ∷ []) ∷ []) fields_bytes (x ∷ []) fields_written refl)
      ∙ with_flag.result)

  borshified : borshify_producer coders bp ≡ ok fields_bytes
  unfolding borshify_producer
  borshified = fields_written

-- What `borshify` writes for a producer of the second version lacks the flag that the contract
-- reads: the decoder takes the byte that follows, whatever it belongs to, for the flag.
pub second_version_misread :
    (coders : Coders) (bp : BlockProducer) (x : ℕ) (rest : List ℕ)
    → IsLittleEndian coders
    → IsSecondVersion coders bp
    → (bs : List ℕ) × (borshify_producer coders bp ≡ ok bs)
      × (decode_producer (bs ++ x ∷ rest)
          ≡ some (
            record {
              public_key = bytes_of coders bp.public_key.body;
              stake = bp.stake;
              is_chunk_only = not (x == 0);
            },
            rest,
          ))
second_version_misread coders bp x rest le h =
    let e = with_flag coders le bp h x in
    let bs : List ℕ = fields_bytes coders le bp h x in
    let whole : e.written ≡ bs ++ x ∷ [] = written_with_flag coders le bp h x in
    let spread : bs ++ x ∷ rest ≡ e.written ++ rest =
      sym (ap (λ (l : List ℕ). l ++ rest) whole ∙ append_assoc bs (x ∷ []) rest) in
    (bs, borshified coders le bp h x, rw spread (e.decodes rest))
