-- ===== src/Chain/BlockHash.antt =====
-- ComputeBlockHash of pkg/chain/block.go. The digests and the CBOR encoder are third-party code,
-- given by `HashCodec`.
use Prim.Native.Nat.{ℕ, ◌-◌, ◌+◌}
use gleipnir.Prelude.{Option, Bool, Bytes, List, ◌++◌, ◌==◌, bytes_eq}
use gleipnir.Prelude.Int.{ℤ, pos, negsuc}
use gleipnir.Prelude.Words.{le_bytes, u64_mod}
use gleipnir.Chain.{Block, ProvenanceEntry, QuorumConfig}

pub record HashCodec : Type 0 where
  pub sha256 : Bytes → Bytes
  pub blake3 : Bytes → Bytes
  pub anchored_cbor : Option (List ProvenanceEntry) → Bytes
  pub quorum_cbor : QuorumConfig → Bytes

-- uint64(t) for a signed t: its two's complement bits.
unfoldable pub to_uint64 : ℤ → ℕ
to_uint64 (pos n) = n
to_uint64 (negsuc n) = u64_mod - (n + 1)

module _ (codec : HashCodec) where
  unfoldable pub compute_block_hash : Block → Bytes
  unfolding le_bytes to_uint64
  compute_block_hash b = codec.sha256 (
      le_bytes 8 b.index
      ++ (b.prev_hash
          ++ (b.state_root
              ++ (b.proposer
                  ++ (codec.blake3 (codec.anchored_cbor b.anchored)
                      ++ (le_bytes 8 (to_uint64 b.timestamp) ++ codec.quorum_cbor b.quorum))))))

  -- VerifyHash
  unfoldable pub verify_block_hash : Block → Bool
  verify_block_hash b = b.block_hash == compute_block_hash b
