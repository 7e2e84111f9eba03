-- ===== src/Consensus/Degraded/Label.antt =====
-- The block that degraded mode leaves passes the PREPARE check.
use native.Mathlib.Decide.{ℕ_discrete}
use gleipnir.Prelude.{
  or_nil, ℕ, zero, suc, ◌+◌, ◌*◌, ◌/◌, ◌≤◌, ◌<◌, ◌≡◌, refl, ◌∙◌, subst, true, not, ◌&&◌, Bytes,
  codes, zero_bytes, Option, none, some, List, [], ◌∷◌, inl, inr, arith, length, length-replicate,
  get_elem?, nat_beq, if◌then◌else◌, Bool-cases, Option-cases, bytes_eq, bytes_beq_refl,
}
use gleipnir.Prelude.Table.{Table, insert, lookup-insert_self}
use gleipnir.Prelude.Results.{ok}
use gleipnir.Prelude.Bits.{
  bitmap_bit, bitmap_set, bitmap_bit-set, bitmap_bit-zero_bytes, length-bitmap_set,
}
use gleipnir.Identity.Dilithium.{Mldsa, verify_dilithium}
use gleipnir.Chain.{Block}
use gleipnir.Consensus.Peer.{Peer}
use gleipnir.Consensus.Commit.{
  degraded_label, is_labelled, count_bits_before, verified_count, peer_verifies,
  verify_prepare_quorum, required_by_block,
}
use gleipnir.Consensus.Degraded.{DegradedMode, find_valid, apply_degraded_block, relabelled}

-- Peer number i, counted from `start`.
abbrev peer_at : ℕ → List Peer → ℕ → Option Peer
peer_at start [] i = none
peer_at start (p ∷ ps) i =
    let rest = peer_at (start + 1) ps i in if nat_beq start i then some p else rest

-- The signature verifies under the key of peer number i.
abbrev IsSigner : Mldsa → Bytes → ℕ → List Peer → Bytes → ℕ → Type 0
IsSigner lib block_hash start ps sig i =
    (p : Peer) × (peer_at start ps i ≡ some p)
    × (start ≤ i)
    × (i < start + length ps)
    × (verify_dilithium lib p.public_key block_hash sig ≡ true)

IsSigner-cons :
    (lib : Mldsa) (block_hash : Bytes) (start : ℕ) (p : Peer) (ps : List Peer) (sig : Bytes) (i : ℕ)
    → IsSigner lib block_hash (start + 1) ps sig i
    → IsSigner lib block_hash start (p ∷ ps) sig i
IsSigner-cons lib block_hash start p ps sig i h =
    (h.0, ground (arith, h.1, h.2), omega (arith, h.2), omega (arith, h.3), h.4)

module _ (lib : Mldsa) (block_hash bitmap : Bytes) (sigs : List Bytes) where
  -- The signature found verifies under the key of the peer whose number is given.
  find_valid_lem :
      (start k : ℕ) (ps : List Peer) (sig : Bytes) (i : ℕ)
      → find_valid lib block_hash bitmap sigs start k ps ≡ some (sig, i)
      → IsSigner lib block_hash start ps sig i
  unfolding find_valid
  find_valid_lem start k [] sig i h = cc
  find_valid_lem start k (p ∷ ps) sig i h = elim (Bool-cases (bitmap_bit bitmap start)) [
    | inl set ↦ elim (Option-cases (get_elem? sigs k)) [
      | inl e ↦ absurd (ground arith)
      | inr (s, e) ↦
          elim (Bool-cases
            (not (nat_beq (length s) 0) && verify_dilithium lib p.public_key block_hash s)) [
              | inl good ↦ (p, ground arith, ground arith, ground arith, ground arith)
              | inr bad ↦
                  IsSigner-cons lib block_hash start p ps sig i
                    (find_valid_lem (start + 1) (k + 1) ps sig i (ground arith))
            ]
    ]
    | inr clear ↦
        IsSigner-cons lib block_hash start p ps sig i
          (find_valid_lem (start + 1) k ps sig i (ground arith))
  ]

module _ (lib : Mldsa) (block_hash sig : Bytes) (cycle : ℕ) (bitmap : Bytes) (only : ℕ) where
  -- A bitmap with one bit.
  abbrev OneBit : Type 0
  OneBit = (j : ℕ) → bitmap_bit bitmap j ≡ nat_beq only j

  no_bits_before : OneBit → (i : ℕ) → i ≤ only → count_bits_before bitmap i ≡ 0
  unfolding count_bits_before
  no_bits_before one zero h = refl
  no_bits_before one (suc i) h = ground (arith, one i, no_bits_before one i (omega arith))

  count_after :
      OneBit
      → (start : ℕ) (ps : List Peer) (n : ℕ) → only < start
      → verified_count lib none block_hash cycle bitmap (sig ∷ []) start ps n ≡ some n
  unfolding verified_count
  count_after one start [] n h = refl
  count_after one start (p ∷ ps) n h = ground (arith, one start, count_after one (start + 1) ps n)

  count_one :
      OneBit
      → (start : ℕ) (ps : List Peer) (n : ℕ) (p : Peer) → start ≤ only
      → only < length bitmap * 8
      → peer_at start ps only ≡ some p
      → verify_dilithium lib p.public_key block_hash sig ≡ true
      → verified_count lib none block_hash cycle bitmap (sig ∷ []) start ps n ≡ some (n + 1)
  unfolding verified_count peer_verifies
  count_one one start [] n p h room at good = cc
  count_one one start (q ∷ ps) n p h room at good = elim (ℕ_discrete start only) [
    | yes e ↦ ground (
      arith,
      one start,
      no_bits_before one start (omega arith),
      count_after one (start + 1) ps (n + 1),
    )
    | no ne ↦ ground (arith, one start, count_one one (start + 1) ps n p (omega arith) room)
  ]

pub insert-is_labelled :
    (m : Table Bytes Bytes) → is_labelled (some (insert degraded_label (codes "true") m)) ≡ true
unfolding is_labelled
insert-is_labelled m =
    rw (lookup-insert_self degraded_label (codes "true") m, is_labelled)
      (bytes_beq_refl (codes "true"))

one_bit : (n i j : ℕ) → i / 8 < n → bitmap_bit (bitmap_set (zero_bytes n) i) j ≡ nat_beq i j
one_bit n i j h = ground (
  arith,
  bitmap_bit-set (zero_bytes n) i j (omega (arith, length-replicate {A = ℕ} n 0)),
  bitmap_bit-zero_bytes n j,
)

module _ (lib : Mldsa) (d : DegradedMode) (block : Block) (peers : List Peer) (cycle : ℕ) where
  relabelled-verifies :
      (sig : Bytes) (i : ℕ)
      → IsSigner lib block.block_hash 0 peers sig i
      → verify_prepare_quorum lib none (relabelled block (length peers) (sig, i)) peers cycle ≡ true
  unfolding verify_prepare_quorum required_by_block
  relabelled-verifies sig i h =
      let n = (length peers + 7) / 8 in
      let size : length (bitmap_set (zero_bytes n) i) ≡ n =
        length-bitmap_set (zero_bytes n) i ∙ length-replicate n 0 in
      ground (
        arith,
        count_one lib block.block_hash sig cycle (bitmap_set (zero_bytes n) i) i
            (λ j. one_bit n i j (omega (arith, h.3))) 0 peers 0 h.0 (omega arith)
            (omega (arith, h.3, size)) h.1 h.4,
        insert-is_labelled (or_nil block.metadata),
      )

  -- Applied in degraded mode, the block that comes out passes the PREPARE check against the peers'
  -- registered keys: the bitmap has been rewritten along with the signatures.
  apply_degraded_block-verifies :
      (block' : Block)
      → d.in_degraded ≡ true
      → apply_degraded_block lib d block peers ≡ ok block'
      → verify_prepare_quorum lib none block' peers cycle ≡ true
  unfolding apply_degraded_block
  apply_degraded_block-verifies block' on h =
      elim (Option-cases (
        find_valid lib block.block_hash (or_nil block.prepare_sigs_bitmap)
          (or_nil block.prepare_sigs) 0 0 peers)) [
            | inl missed ↦ absurd (ground arith)
            | inr ((sig, i), found) ↦
                let out : relabelled block (length peers) (sig, i) ≡ block' = ground arith in
                subst (λ b. verify_prepare_quorum lib none b peers cycle ≡ true) out
                  (relabelled-verifies sig i (
                    find_valid_lem lib block.block_hash (or_nil block.prepare_sigs_bitmap)
                      (or_nil block.prepare_sigs) 0 0 peers sig i found))
          ]
