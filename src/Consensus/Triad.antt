-- ===== src/Consensus/Triad.antt =====
-- pkg/consensus/triad.go: the choice of the proposer by VRF output. `vrf_verify` stands for
-- VRFVerifyProof, which rests on third-party curve arithmetic: key, input and proof to the gamma.
pub mod Lowest
pub mod Agreement
use gleipnir.Prelude.{
  ℕ, ◌+◌, ◌%◌, Bool, true, false, Bytes, bytes_eq, Option, none, some, List, [], ◌∷◌, ◌++◌, ltb,
  nat_beq, not, get_elem?, if◌then◌else◌,
}
use gleipnir.Prelude.Table.{Table, lookup}
use gleipnir.Prelude.Words.{le_bytes}
use gleipnir.Prelude.Results.{Result, ok, err}
use gleipnir.Consensus.Peer.{Peer, peer_id}

-- lessThan
unfoldable pub less_than : Bytes → Bytes → Bool
less_than [] [] = false
less_than [] (b ∷ bs) = true
less_than (a ∷ as') [] = false
less_than (a ∷ as') (b ∷ bs) = if not (nat_beq a b) then ltb a b else less_than as' bs

-- makeAlpha
unfoldable pub make_alpha : ℕ → Bytes → Bytes
make_alpha cycle state_root = le_bytes 8 cycle ++ state_root

pub data SelectionError : Type 0 where
  vrf_selection_failed incomplete_vrf_proofs : SelectionError

-- best, bestProof and bestGamma.
pub record Best (Proof : Type 0) : Type 0 where
  pub peer : Peer
  pub proof : Proof
  pub gamma : Bytes

module _ {Proof : Type 0} (vrf_verify : Bytes → Bytes → Proof → Option Bytes) (alpha : Bytes) where
  -- The checks on one peer: its proof, and the gamma of that.
  unfoldable pub candidate_of : Table Bytes Proof → Peer → Option (Best Proof)
  candidate_of proofs p = elim (lookup (peer_id p) proofs) [
    | none ↦ none
    | some proof ↦ elim (vrf_verify p.vrf_public_key alpha proof) [
      | none ↦ none
      | some gamma ↦ some (record { peer = p; proof = proof; gamma = gamma })
    ]
  ]

  -- bestGamma == nil || lessThan(gamma, bestGamma)
  unfoldable pub better : Option (Best Proof) → Best Proof → Best Proof
  better none c = c
  better (some best) c = if less_than c.gamma best.gamma then c else best

  abbrev found : Option (Best Proof) → Result SelectionError (Best Proof)
  found none = err vrf_selection_failed
  found (some best) = ok best

  unfoldable pub select_loop :
      Table Bytes Proof → Option (Best Proof) → List Peer → Result SelectionError (Best Proof)
  select_loop proofs best [] = found best
  select_loop proofs best (p ∷ ps) = elim (candidate_of proofs p) [
    | none ↦ err incomplete_vrf_proofs
    | some c ↦ select_loop proofs (some (better best c)) ps
  ]

  -- SelectProposerVRF
  unfoldable pub select_proposer_vrf :
      List Peer → Table Bytes Proof → Result SelectionError (Best Proof)
  select_proposer_vrf peers proofs = select_loop proofs none peers

-- SelectProposer
unfoldable pub select_proposer :
    {Proof : Type 0}
    → (Bytes → Bytes → Proof → Option Bytes)
    → List Peer
    → ℕ
    → Bytes
    → Table Bytes Proof
    → Result SelectionError (Best Proof)
unfolding make_alpha
select_proposer vrf_verify peers cycle state_root proofs =
    select_proposer_vrf vrf_verify (make_alpha cycle state_root) peers proofs

-- SelectTriad; an index out of range, where the Go code panics, is `none`.
unfoldable pub select_triad : List Peer → ℕ → ℕ → Option (Bytes × Bytes × Bytes)
select_triad peers proposer n = elim (get_elem? peers proposer) [
  | none ↦ none
  | some a ↦ elim (get_elem? peers ((proposer + 1) % n)) [
    | none ↦ none
    | some b ↦ elim (get_elem? peers ((proposer + 2) % n)) [
      | none ↦ none
      | some c ↦ some (a.root_id, b.root_id, c.root_id)
    ]
  ]
]
