-- ===== src/Consensus/Commit.antt =====
-- pkg/consensus/commit.go, and the bitmap of prepare.go: how the leader writes the PREPARE quorum
-- into the final block, and how the others read it.
pub mod Reading
pub mod Safety
pub mod Lowered
pub mod Phase
pub mod Writing
pub mod Accept
pub mod Network
use gleipnir.Prelude.{
  ℕ, zero, suc, ◌+◌, ◌*◌, ◌/◌, Bool, true, false, Bytes, codes, zero_bytes, Option, none, some,
  List, [], ◌∷◌, length, get_elem?, ltb, leb, if◌then◌else◌, ◌==◌, bytes_eq,
}
use gleipnir.Prelude.Table.{Table, lookup}
use gleipnir.Prelude.Bits.{bitmap_bit, bitmap_set}
use gleipnir.Identity.Dilithium.{Mldsa, verify_dilithium}
use gleipnir.Chain.{Block}
use gleipnir.Validation.KeyRotation.{Validator, verify_signature_with_overlap}
use gleipnir.Consensus.Peer.{Peer, peer_id}
use gleipnir.Consensus.Quorum.{quorum_required}

abbrev pub degraded_label : Bytes
degraded_label = codes "3cp:degraded-block"

-- block.Metadata["3cp:degraded-block"] is "true".
unfoldable pub is_labelled : Option (Table Bytes Bytes) → Bool
is_labelled none = false
is_labelled (some m) = elim (lookup degraded_label m) [ none ↦ false | some v ↦ v == codes "true" ]

-- countBitsBefore
unfoldable pub count_bits_before : Bytes → ℕ → ℕ
count_bits_before bitmap zero = 0
count_bits_before bitmap (suc i) =
    let before = count_bits_before bitmap i in if bitmap_bit bitmap i then before + 1 else before

module _ (lib : Mldsa) (eng : Option Validator) (block_hash : Bytes) (cycle : ℕ) where
  -- The keys are the engine's, which follow rotations, or without an engine the peer's own.
  unfoldable pub peer_verifies : Peer → Bytes → Bool
  peer_verifies p sig = elim eng [
    | some v ↦ verify_signature_with_overlap lib v p.root_id block_hash sig cycle
    | none ↦ verify_dilithium lib p.public_key block_hash sig
  ]

  -- The loop of verifyPrepareQuorum from peer `i` on; `none` is its early `return false`.
  unfoldable pub verified_count : Bytes → List Bytes → ℕ → List Peer → ℕ → Option ℕ
  verified_count bitmap sigs i [] n = some n
  verified_count bitmap sigs i (p ∷ ps) n =
      let skip = verified_count bitmap sigs (i + 1) ps n in
      let next = verified_count bitmap sigs (i + 1) ps (n + 1) in
      if leb (length bitmap * 8) i
      then skip
      else if bitmap_bit bitmap i
      then elim (get_elem? sigs (count_bits_before bitmap i)) [
        | none ↦ none
        | some sig ↦ if peer_verifies p sig then next else none
      ]
      else skip

-- The quorum that a block must show, by its own label.
unfoldable pub required_by_block : Block → List Peer → ℕ
required_by_block block peers =
    if is_labelled block.metadata then 1 else quorum_required (length peers)

abbrev at_least : Option ℕ → ℕ → Bool
at_least none required = false
at_least (some n) required = leb required n

unfoldable pub verify_prepare_quorum : Mldsa → Option Validator → Block → List Peer → ℕ → Bool
verify_prepare_quorum lib eng block peers cycle = elim block.prepare_sigs_bitmap [
  | none ↦ false
  | some bitmap ↦ elim block.prepare_sigs [
    | none ↦ false
    | some sigs ↦
        at_least (verified_count lib eng block.block_hash cycle bitmap sigs 0 peers 0)
          (required_by_block block peers)
  ]
]

-- The bitmap of RunPreparePhase: bit i for peer i, if the map has a signature of that peer.
unfoldable pub mark_signers : Table Bytes Bytes → ℕ → List Peer → Bytes → Bytes
mark_signers sigs i [] bitmap = bitmap
mark_signers sigs i (p ∷ ps) bitmap =
    mark_signers sigs (i + 1) ps
      (elim (lookup (peer_id p) sigs) [ none ↦ bitmap | some sig ↦ bitmap_set bitmap i ])

unfoldable pub build_bitmap : Table Bytes Bytes → List Peer → Bytes
unfolding mark_signers
build_bitmap sigs peers = mark_signers sigs 0 peers (zero_bytes ((length peers + 7) / 8))

-- The leader's loop of RunCommitPhase: the signers' signatures, in the order of the bitmap.
unfoldable pub compact_sigs : Table Bytes Bytes → Bytes → ℕ → List Peer → List Bytes
compact_sigs sigs bitmap i [] = []
compact_sigs sigs bitmap i (p ∷ ps) =
    let rest = compact_sigs sigs bitmap (i + 1) ps in
    if leb (length bitmap) (i / 8)
    then []
    else if bitmap_bit bitmap i
    then elim (lookup (peer_id p) sigs) [ none ↦ rest | some sig ↦ sig ∷ rest ]
    else rest
