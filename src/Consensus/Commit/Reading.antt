-- ===== src/Consensus/Commit/Reading.antt =====
-- What `verify_prepare_quorum` has checked when it accepts.
use gleipnir.Prelude.{
  ℕ, zero, suc, ◌+◌, ◌*◌, ◌≤◌, ◌≡◌, Bool, true, ◌&&◌, Bytes, Option, some, List, [], ◌∷◌, arith,
  length, get_elem?, ltb, Option-cases, Bool-cases, inl, inr, if◌then◌else◌, Has, All,
}
use gleipnir.Prelude.Bits.{bitmap_bit}
use gleipnir.Identity.Dilithium.{Mldsa}
use gleipnir.Chain.{Block}
use gleipnir.Validation.KeyRotation.{Validator}
use gleipnir.Consensus.Peer.{Peer}
use gleipnir.Consensus.Commit.{
  verified_count, peer_verifies, count_bits_before, verify_prepare_quorum, required_by_block,
}

-- Bit i of the bitmap, where it has one.
abbrev pub marked : Bytes → ℕ → Bool
marked bitmap i = ltb i (length bitmap * 8) && bitmap_bit bitmap i

-- The peers from number `i` on whose bits are set.
abbrev pub signers_from : Bytes → ℕ → List Peer → List Peer
signers_from bitmap i [] = []
signers_from bitmap i (p ∷ ps) =
    let rest = signers_from bitmap (i + 1) ps in if marked bitmap i then p ∷ rest else rest

module _ (lib : Mldsa) (eng : Option Validator) (block_hash : Bytes) (cycle : ℕ) where
  -- A signature of the list verifies for the peer.
  abbrev pub Signed : List Bytes → Peer → Type 0
  Signed sigs p =
      (sig : Bytes) × Has sig sigs × (peer_verifies lib eng block_hash cycle p sig ≡ true)

  get_elem?-Has :
      (sigs : List Bytes) (i : ℕ) (sig : Bytes) → get_elem? sigs i ≡ some sig → Has sig sigs
  get_elem?-Has [] i sig h = cc
  get_elem?-Has (s ∷ sigs) zero sig h = inl (ground arith)
  get_elem?-Has (s ∷ sigs) (suc i) sig h = inr (get_elem?-Has sigs i sig h)

  verified_count_lem :
      (bitmap : Bytes) (sigs : List Bytes) (i : ℕ) (ps : List Peer) (n m : ℕ)
      → verified_count lib eng block_hash cycle bitmap sigs i ps n ≡ some m
      → (m ≡ n + length (signers_from bitmap i ps)) × All (Signed sigs) (signers_from bitmap i ps)
  unfolding verified_count
  verified_count_lem bitmap sigs i [] n m h = (ground arith, tt)
  verified_count_lem bitmap sigs i (p ∷ ps) n m h = elim (Bool-cases (marked bitmap i)) [
    | inl set ↦ elim (Option-cases (get_elem? sigs (count_bits_before bitmap i))) [
      | inl missing ↦ absurd (ground arith)
      | inr (sig, found) ↦
          let later = verified_count_lem bitmap sigs (i + 1) ps (n + 1) m (ground arith) in
          rw set
            (omega (arith, later.0), ((sig, get_elem?-Has sigs _ sig found, ground arith), later.1))
    ]
    | inr clear ↦
        let later = verified_count_lem bitmap sigs (i + 1) ps n m (ground arith) in rw clear later
  ]

-- The signatures that a final block carries for the peers that its bitmap names.
pub record IsPrepared (lib : Mldsa) (eng : Option Validator) (cycle : ℕ) (block : Block)
    (peers : List Peer) : Type 0 where
  pub bitmap : Bytes
  pub has_bitmap : block.prepare_sigs_bitmap ≡ some bitmap
  pub sigs : List Bytes
  pub has_sigs : block.prepare_sigs ≡ some sigs
  pub enough : required_by_block block peers ≤ length (signers_from bitmap 0 peers)
  pub signed : All (Signed lib eng block.block_hash cycle sigs) (signers_from bitmap 0 peers)

-- An accepted block has a bitmap that names as many peers as it must show, and carries for each of
-- them a signature of the block hash that verifies under a key authoritative for that peer.
pub verify_prepare_quorum_sound :
    (lib : Mldsa) (eng : Option Validator) (block : Block) (peers : List Peer) (cycle : ℕ)
    → verify_prepare_quorum lib eng block peers cycle ≡ true
    → IsPrepared lib eng cycle block peers
unfolding verify_prepare_quorum
verify_prepare_quorum_sound lib eng block peers cycle h =
    elim (Option-cases block.prepare_sigs_bitmap) [
      | inl b ↦ absurd (ground arith)
      | inr (bitmap, b) ↦ elim (Option-cases block.prepare_sigs) [
        | inl s ↦ absurd (ground arith)
        | inr (sigs, s) ↦
            elim (Option-cases
              (verified_count lib eng block.block_hash cycle bitmap sigs 0 peers 0)) [
                | inl c ↦ absurd (ground arith)
                | inr (m, c) ↦
                    let counted =
                      verified_count_lem lib eng block.block_hash cycle bitmap sigs 0 peers 0 m c in
                    record {
                      bitmap = bitmap;
                      has_bitmap = b;
                      sigs = sigs;
                      has_sigs = s;
                      enough = ground (arith, counted.0);
                      signed = counted.1;
                    }
              ]
      ]
    ]
