-- ===== src/Consensus/Commit/Writing.antt =====
-- What the leader writes, the others accept.
use gleipnir.Prelude.{
  ℕ, ◌+◌, ◌*◌, ◌/◌, ◌≤◌, ◌<◌, ◌≡◌, refl, ◌∙◌, Bool, true, false, ◌||◌, Bytes, zero_bytes, none,
  some, List, [], ◌∷◌, arith, length, length-replicate, nat_beq, Option-cases, inl, inr,
  if◌then◌else◌, bytes_eq,
}
use gleipnir.Prelude.Table.{Table, lookup}
use gleipnir.Prelude.Bits.{
  bitmap_bit, bitmap_set, bitmap_bit-set, bitmap_bit-zero_bytes, length-bitmap_set,
}
use gleipnir.Consensus.Peer.{Peer, peer_id}
use gleipnir.Consensus.Commit.{mark_signers, build_bitmap}

-- The map holds a signature of the peer.
abbrev pub has_sig : Table Bytes Bytes → Peer → Bool
has_sig sigs p = elim (lookup (peer_id p) sigs) [ none ↦ false | some sig ↦ true ]

-- Bit j as the peers from number i on would set it.
abbrev pub flag : Table Bytes Bytes → ℕ → List Peer → ℕ → Bool
flag sigs i [] j = false
flag sigs i (p ∷ ps) j =
    let rest = flag sigs (i + 1) ps j in if nat_beq i j then has_sig sigs p else rest

module _ (sigs : Table Bytes Bytes) where
  flag-below : (i j : ℕ) (ps : List Peer) → j < i → flag sigs i ps j ≡ false
  flag-below i j [] h = refl
  flag-below i j (p ∷ ps) h = ground (arith, flag-below (i + 1) j ps (omega arith))

  mark_signers-bit :
      (i j : ℕ) (ps : List Peer) (bitmap : Bytes)
      → i + length ps ≤ length bitmap * 8
      → bitmap_bit (mark_signers sigs i ps bitmap) j ≡ (flag sigs i ps j || bitmap_bit bitmap j)
  unfolding mark_signers
  mark_signers-bit i j [] bitmap h = refl
  mark_signers-bit i j (p ∷ ps) bitmap h = elim (Option-cases (lookup (peer_id p) sigs)) [
    | inl e ↦ rw e (
        ground (arith, mark_signers-bit (i + 1) j ps bitmap (omega arith), flag-below (i + 1) j ps))
    | inr (sig, e) ↦ rw e (
        ground (
          arith,
          mark_signers-bit (i + 1) j ps (bitmap_set bitmap i)
              (omega (arith, length-bitmap_set bitmap i)),
          bitmap_bit-set bitmap i j (omega arith),
        ))
  ]

  length-mark_signers :
      (i : ℕ) (ps : List Peer) (bitmap : Bytes)
      → length (mark_signers sigs i ps bitmap) ≡ length bitmap
  unfolding mark_signers
  length-mark_signers i [] bitmap = refl
  length-mark_signers i (p ∷ ps) bitmap = elim (Option-cases (lookup (peer_id p) sigs)) [
    | inl e ↦ rw e (length-mark_signers (i + 1) ps bitmap)
    | inr (sig, e) ↦
        rw e (length-mark_signers (i + 1) ps (bitmap_set bitmap i) ∙ length-bitmap_set bitmap i)
  ]

  length-build_bitmap :
      (peers : List Peer) → length (build_bitmap sigs peers) ≡ (length peers + 7) / 8
  unfolding build_bitmap
  length-build_bitmap peers =
      length-mark_signers 0 peers (zero_bytes ((length peers + 7) / 8))
      ∙ length-replicate ((length peers + 7) / 8) 0

  -- Bit j says whether the map has a signature of peer j.
  pub build_bitmap-bit :
      (peers : List Peer) (j : ℕ) → bitmap_bit (build_bitmap sigs peers) j ≡ flag sigs 0 peers j
  unfolding build_bitmap
  build_bitmap-bit peers j =
      let size : length (zero_bytes ((length peers + 7) / 8)) ≡ (length peers + 7) / 8 =
        length-replicate ((length peers + 7) / 8) 0 in
      ground (
        arith,
        mark_signers-bit 0 j peers (zero_bytes ((length peers + 7) / 8)) (omega (arith, size)),
        bitmap_bit-zero_bytes ((length peers + 7) / 8) j,
      )

  -- The bits from number i on are those of the peers.
  abbrev pub Marks : Bytes → ℕ → List Peer → Type 0
  Marks bitmap i [] = Unit
  Marks bitmap i (p ∷ ps) = (bitmap_bit bitmap i ≡ has_sig sigs p) × Marks bitmap (i + 1) ps

  Marks-of_flag :
      (bitmap : Bytes) (i : ℕ) (ps : List Peer)
      → ((j : ℕ) → i ≤ j → bitmap_bit bitmap j ≡ flag sigs i ps j)
      → Marks bitmap i ps
  Marks-of_flag bitmap i [] h = tt
  Marks-of_flag bitmap i (p ∷ ps) h =
      (ground (arith, h i), Marks-of_flag bitmap (i + 1) ps (λ j le. ground (arith, h j)))

  pub build_bitmap-Marks : (peers : List Peer) → Marks (build_bitmap sigs peers) 0 peers
  build_bitmap-Marks peers =
      Marks-of_flag (build_bitmap sigs peers) 0 peers (λ j le. build_bitmap-bit peers j)

  pub build_bitmap-room : (peers : List Peer) → length peers ≤ length (build_bitmap sigs peers) * 8
  build_bitmap-room peers = omega (arith, length-build_bitmap peers)
