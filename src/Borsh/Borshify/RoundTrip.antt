-- ===== src/Borsh/Borshify/RoundTrip.antt =====
-- The contract's decoder reads back what `borshify` writes.
use rainbow_bridge.Prelude.{
  ℕ, ◌^◌, ◌<◌, ◌≡◌, true, Option, some, List, [], ◌∷◌, map, arith, length, All, append-nil,
}
use rainbow_bridge.Prelude.Js.{ok}
use rainbow_bridge.Borsh.Borshify.{
  Coders, concat, Key, BlockProducer, Block, borshify_producer, borshify_approval, borshify,
}
use rainbow_bridge.Borsh.Borshify.Decoder.{
  repeat, decode_producer, decode_producers, decode_approval, decode_block,
}
use rainbow_bridge.Borsh.Borshify.Encodes.{
  Encodes, Encodes-append, Encodes-cons, Encodes-nil, Encodes-repeat,
}
use rainbow_bridge.Borsh.Borshify.Parts.{
  IsLittleEndian, bytes_of, IsProducer, view_producer, IsApproval, view_approval, view_inner_lite,
  IsBlock, view_block, hash_lem, uint_lem, bool_lem, producer_lem, approval_lem, inner_lite_lem,
}

module _ (coders : Coders) (le : IsLittleEndian coders) where
  producers_lem :
      (bps : List BlockProducer)
      → All (IsProducer coders) bps
      → length bps < 2 ^ 32
      → Encodes
          (concat (coders.to_le 4 (length bps) ∷ concat (map (borshify_producer coders) bps) ∷ []))
          (decode_producers true)
          (some (map (view_producer coders) bps))
  unfolding decode_producers
  producers_lem bps h small =
      Encodes-cons _ _ _ _ (length bps) _ (uint_lem coders le 4 _ (omega (arith, small))) (
        Encodes-cons _ _ _ _ (map (view_producer coders) bps) _
          (Encodes-repeat (borshify_producer coders) decode_producer (view_producer coders)
            (IsProducer coders) (producer_lem coders le) bps h)
          (Encodes-nil _))

  approvals_lem :
      (approvals : List (Option Key))
      → All (IsApproval coders) approvals
      → Encodes
          (concat (map (borshify_approval coders) approvals))
          (repeat (length approvals) decode_approval)
          (map (view_approval coders) approvals)
  approvals_lem approvals h =
      Encodes-repeat (borshify_approval coders) decode_approval (view_approval coders)
        (IsApproval coders) (approval_lem coders le) approvals h

  block_lem :
      (block : Block)
      → IsBlock coders block
      → Encodes (borshify coders block) decode_block (view_block coders block)
  unfolding borshify decode_block
  block_lem block h =
      Encodes-cons _ _ _ _ (bytes_of coders block.prev_block_hash) _
        (hash_lem coders le _ h.prev_block_hash)
        (Encodes-cons _ _ _ _ (bytes_of coders block.next_block_inner_hash) _
          (hash_lem coders le _ h.next_block_inner_hash)
          (Encodes-cons _ _ _ _ (view_inner_lite coders block.inner_lite) _
            (inner_lite_lem coders le _ h.inner_lite)
            (Encodes-cons _ _ _ _ (bytes_of coders block.inner_rest_hash) _
              (hash_lem coders le _ h.inner_rest_hash)
              (Encodes-cons _ _ _ _ true _ (bool_lem coders le true) (
                Encodes-append
                  (coders.to_le 4 (length block.next_bps)
                    ∷ concat (map (borshify_producer coders) block.next_bps)
                    ∷ [])
                  (coders.to_le 4 (length block.approvals_after_next)
                    ∷ concat (map (borshify_approval coders) block.approvals_after_next)
                    ∷ [])
                  _ _ (some (map (view_producer coders) block.next_bps)) _
                  (producers_lem block.next_bps h.producers h.producers_fit)
                  (Encodes-cons _ _ _ _ (length block.approvals_after_next) _
                    (uint_lem coders le 4 _ (omega (arith, h.approvals_fit)))
                    (Encodes-cons _ _ _ _ (map (view_approval coders) block.approvals_after_next) _
                      (approvals_lem block.approvals_after_next h.approvals) (Encodes-nil _))))))))

-- Where BN's `toBuffer` is as documented, every base 58 text decodes to its 32 or 64 bytes, the
-- numbers fit their widths, the keys are of ed25519 and the producers of the first version,
-- `borshify` does not throw, and the contract's decoder reads the block back from its bytes and
-- takes them all.
pub decode_block-borshify :
    (coders : Coders) (block : Block)
    → IsLittleEndian coders
    → IsBlock coders block
    → (bs : List ℕ) × (borshify coders block ≡ ok bs)
      × (decode_block bs ≡ some (view_block coders block, []))
decode_block-borshify coders block le h =
    let whole = block_lem coders le block h in
    (whole.written, whole.result, rw append-nil at (whole.decodes []))
