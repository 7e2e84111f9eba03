-- ===== src/Consensus/Triad/Agreement.antt =====
-- Two nodes that hold complete proof sets choose the same proposer.
use gleipnir.Prelude.{
  ◌≡◌, true, false, Bytes, bytes_eq, Option, none, some, List, [], ◌∷◌, arith, Bool-cases,
  Option-cases, inl, inr,
}
use gleipnir.Prelude.Table.{Table, lookup}
use gleipnir.Prelude.Results.{ok}
use gleipnir.Consensus.Peer.{Peer, peer_id}
use gleipnir.Consensus.Triad.{
  less_than, Best, candidate_of, better, select_loop, select_proposer_vrf,
}

module _ {Proof : Type 0} (vrf_verify : Bytes → Bytes → Proof → Option Bytes) (alpha : Bytes) where
  -- What RFC 9381 promises: a key and an input have one gamma, whichever proof shows it.
  abbrev pub OneGamma : Type 0
  OneGamma =
      (pk : Bytes) (one other : Proof) (g h : Bytes)
      → vrf_verify pk alpha one ≡ some g
      → vrf_verify pk alpha other ≡ some h
      → g ≡ h

  module _ (unique : OneGamma) (proofs proofs' : Table Bytes Proof) where
    abbrev Same : Best Proof → Best Proof → Type 0
    Same b b' = (b.peer ≡ b'.peer) × (b.gamma ≡ b'.gamma)

    abbrev SameBest : Option (Best Proof) → Option (Best Proof) → Type 0
    SameBest none none = Unit
    SameBest none (some b') = ⊥
    SameBest (some b) none = ⊥
    SameBest (some b) (some b') = Same b b'

    candidates-Same :
        (p : Peer) (c c' : Best Proof)
        → candidate_of vrf_verify alpha proofs p ≡ some c
        → candidate_of vrf_verify alpha proofs' p ≡ some c'
        → Same c c'
    unfolding candidate_of
    candidates-Same p c c' e e' = elim (Option-cases (lookup (peer_id p) proofs)) [
      | inl a ↦ absurd (ground arith)
      | inr (one, a) ↦ elim (Option-cases (lookup (peer_id p) proofs')) [
        | inl a' ↦ absurd (ground arith)
        | inr (other, a') ↦ elim (Option-cases (vrf_verify p.vrf_public_key alpha one)) [
          | inl g ↦ absurd (ground arith)
          | inr (gamma, g) ↦ elim (Option-cases (vrf_verify p.vrf_public_key alpha other)) [
            | inl g' ↦ absurd (ground arith)
            | inr (gamma', g') ↦
                let same = unique p.vrf_public_key one other gamma gamma' g g' in
                (ground arith, ground (arith, same))
          ]
        ]
      ]
    ]

    better-Same :
        (best best' : Option (Best Proof)) (c c' : Best Proof)
        → SameBest best best'
        → Same c c'
        → Same (better vrf_verify alpha best c) (better vrf_verify alpha best' c')
    unfolding better
    better-Same none none c c' s t = t
    better-Same none (some b') c c' s t = absurd s
    better-Same (some b) none c c' s t = absurd s
    better-Same (some b) (some b') c c' s t = elim (Bool-cases (less_than c.gamma b.gamma)) [
      | inl below ↦
          let below' : less_than c'.gamma b'.gamma ≡ true = ground (arith, s.1, t.1) in
          rw (below, below') t
      | inr above ↦
          let above' : less_than c'.gamma b'.gamma ≡ false = ground (arith, s.1, t.1) in
          rw (above, above') s
    ]

    select_loop-Same :
        (best best' : Option (Best Proof)) (ps : List Peer) (b b' : Best Proof)
        → SameBest best best'
        → select_loop vrf_verify alpha proofs best ps ≡ ok b
        → select_loop vrf_verify alpha proofs' best' ps ≡ ok b'
        → Same b b'
    unfolding select_loop
    select_loop-Same none best' [] b b' s e e' = absurd (ground arith)
    select_loop-Same (some c) none [] b b' s e e' = absurd s
    select_loop-Same (some c) (some c') [] b b' s e e' = (ground (arith, s.0), ground (arith, s.1))
    select_loop-Same best best' (p ∷ ps) b b' s e e' =
        elim (Option-cases (candidate_of vrf_verify alpha proofs p)) [
          | inl f ↦ absurd (ground arith)
          | inr (c, f) ↦ elim (Option-cases (candidate_of vrf_verify alpha proofs' p)) [
            | inl f' ↦ absurd (ground arith)
            | inr (c', f') ↦
                select_loop-Same (some (better vrf_verify alpha best c))
                  (some (better vrf_verify alpha best' c')) ps b b'
                  (better-Same best best' c c' s (candidates-Same p c c' f f')) (ground arith)
                  (ground arith)
          ]
        ]

    -- Where a key and an input have one gamma, two nodes with the same peers and the same input that
    -- both choose a proposer choose the same one, whichever proofs they hold.
    pub select_proposer_vrf_agree :
        (ps : List Peer) (b b' : Best Proof)
        → select_proposer_vrf vrf_verify alpha ps proofs ≡ ok b
        → select_proposer_vrf vrf_verify alpha ps proofs' ≡ ok b'
        → b.peer ≡ b'.peer
    unfolding select_proposer_vrf
    select_proposer_vrf_agree ps b b' e e' = (select_loop-Same none none ps b b' tt e e').0
