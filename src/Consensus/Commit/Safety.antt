-- ===== src/Consensus/Commit/Safety.antt =====
-- Two final blocks of one cycle have signers in common.
use gleipnir.Prelude.{
  ℕ, ◌+◌, ◌*◌, ◌≤◌, ◌≡◌, Bool, true, false, ◌&&◌, Bytes, Option, some, List, [], ◌∷◌, arith, length,
  if◌then◌else◌, All,
}
use gleipnir.Identity.Dilithium.{Mldsa}
use gleipnir.Chain.{Block}
use gleipnir.Validation.KeyRotation.{Validator}
use gleipnir.Consensus.Peer.{Peer}
use gleipnir.Consensus.Quorum.Counting.{quorum_required_ceil}
use gleipnir.Consensus.Commit.{verify_prepare_quorum, required_by_block, is_labelled}
use gleipnir.Consensus.Commit.Reading.{marked, signers_from, Signed, verify_prepare_quorum_sound}

-- The peers from number `i` on whose bits are set in both bitmaps.
abbrev both_from : Bytes → Bytes → ℕ → List Peer → List Peer
both_from b b' i [] = []
both_from b b' i (p ∷ ps) =
    let rest = both_from b b' (i + 1) ps in if marked b i && marked b' i then p ∷ rest else rest

both_from-count :
    (b b' : Bytes) (i : ℕ) (ps : List Peer)
    → length (signers_from b i ps) + length (signers_from b' i ps)
      ≤ length ps + length (both_from b b' i ps)
both_from-count b b' i [] = omega arith
both_from-count b b' i (p ∷ ps) = ground (arith, both_from-count b b' (i + 1) ps)

module _ (P Q : Peer → Type 0) where
  abbrev Both : Peer → Type 0
  Both p = P p × Q p

  Both-All :
      (x y : Bool) (p : Peer) (ps qs both : List Peer)
      → (All P ps → All Q qs → All Both both)
      → All P (if x then p ∷ ps else ps)
      → All Q (if y then p ∷ qs else qs)
      → All Both (if x && y then p ∷ both else both)
  Both-All true true p ps qs both rest h k = ((h.0, k.0), rest h.1 k.1)
  Both-All true false p ps qs both rest h k = rest h.1 k
  Both-All false true p ps qs both rest h k = rest h k.1
  Both-All false false p ps qs both rest h k = rest h k

  both_from-All :
      (b b' : Bytes) (i : ℕ) (ps : List Peer)
      → All P (signers_from b i ps)
      → All Q (signers_from b' i ps)
      → All Both (both_from b b' i ps)
  both_from-All b b' i [] h k = tt
  both_from-All b b' i (p ∷ ps) h k =
      Both-All (marked b i) (marked b' i) p _ _ _ (both_from-All b b' (i + 1) ps) h k

module _ (lib : Mldsa) (eng : Option Validator) (cycle : ℕ) (block block' : Block)
    (peers : List Peer) where
  -- Peers, a third of all or more, whose bits both blocks set of whom each block carries a signature of its
  -- hash.
  pub record SignedBoth : Type 0 where
    pub bitmap : Bytes
    pub has_bitmap : block.prepare_sigs_bitmap ≡ some bitmap
    pub bitmap' : Bytes
    pub has_bitmap' : block'.prepare_sigs_bitmap ≡ some bitmap'
    pub sigs : List Bytes
    pub has_sigs : block.prepare_sigs ≡ some sigs
    pub sigs' : List Bytes
    pub has_sigs' : block'.prepare_sigs ≡ some sigs'
    pub a_third : length peers ≤ 3 * length (both_from bitmap bitmap' 0 peers)
    pub signed :
        All
          (λ p.
            Signed lib eng block.block_hash cycle sigs p
            × Signed lib eng block'.block_hash cycle sigs' p)
          (both_from bitmap bitmap' 0 peers)

  -- Quorum intersection: two blocks that are accepted against the same peers, neither with the
  -- degraded label, carry signatures of both block hashes by a third of the peers or more.
  pub prepare_quorums_intersect :
      verify_prepare_quorum lib eng block peers cycle ≡ true
      → verify_prepare_quorum lib eng block' peers cycle ≡ true
      → is_labelled block.metadata ≡ false
      → is_labelled block'.metadata ≡ false
      → SignedBoth
  unfolding required_by_block
  prepare_quorums_intersect h h' plain plain' =
      let a = verify_prepare_quorum_sound lib eng block peers cycle h in
      let a' = verify_prepare_quorum_sound lib eng block' peers cycle h' in
      record {
        bitmap = a.bitmap;
        has_bitmap = a.has_bitmap;
        bitmap' = a'.bitmap;
        has_bitmap' = a'.has_bitmap;
        sigs = a.sigs;
        has_sigs = a.has_sigs;
        sigs' = a'.sigs;
        has_sigs' = a'.has_sigs;
        a_third = ground (
          arith,
          a.enough,
          a'.enough,
          both_from-count a.bitmap a'.bitmap 0 peers,
          quorum_required_ceil (length peers),
        );
        signed = both_from-All _ _ a.bitmap a'.bitmap 0 peers a.signed a'.signed;
      }
