-- ===== src/Engine/Rollback.antt =====
-- What a cycle that does not commit leaves of the engine, and what one that does adds.
use gleipnir.Prelude.{
  or_nil, ℕ, ◌≡◌, refl, ap, ◌∙◌, Bool, true, false, Bytes, bytes_eq, nat_eq, ◌==◌, some, List, [],
  arith, Bool-cases, Option-cases, inl, inr,
}
use gleipnir.Prelude.Results.{Result, ok, err, Result-cases}
use gleipnir.Chain.{Block, ProvenanceEntry}
use gleipnir.Consensus.Peer.{Peer, peer_id}
use gleipnir.Consensus.Gossip.{get_proposed, snapshot}
use gleipnir.Engine.{Engine}
use gleipnir.Engine.Prepare.{
  Env, Waits, PrepareError, insert_entries, unique_entries, make_block, propose_block,
  follow_proposal, check_proposal, collect_valid_sigs, wait_for_signatures, gather, with_proposer,
  run_prepare_phase, wait_for_vrf_proofs, own_id, then_gather, show_proof, is_inactive,
  proposer_peers, collect_vrf_proofs,
}
use gleipnir.Prelude.Table.{Table}
use gleipnir.Consensus.Triad.{select_proposer, make_alpha}

-- All that the PREPARE phase changes is the tree and the bus.
abbrev pub Kept : Engine → Engine → Type 0
Kept e e' = e' ≡ record e { st = e'.st; gossip = e'.gossip }

Kept-trans : (a b c : Engine) → Kept a b → Kept b c → Kept a c
Kept-trans a b c h k = k ∙ ap (λ (x : Engine). record x { st = c.st; gossip = c.gossip }) h

module _ (env : Env) (w : Waits) where
  make_block-Kept :
      (e : Engine) (p : Peer) (cycle : ℕ) (es : List ProvenanceEntry) (required now : ℕ)
      → Kept e (make_block env w e p cycle es required now).0
  unfolding make_block
  make_block-Kept e p cycle es required now =
      elim (Option-cases (insert_entries env.blake3 e.st (unique_entries [] es))) [
        | inl failed ↦ rw (make_block, failed) refl
        | inr (t, found) ↦ rw (make_block, found) refl
      ]

  propose_block-Kept :
      (e : Engine) (p : Peer) (cycle : ℕ) (es : List ProvenanceEntry) (check : Bool)
      (required now : ℕ)
      → Kept e (propose_block env w e p cycle es check required now).0
  unfolding propose_block
  propose_block-Kept e p cycle es check required now =
      let made = make_block-Kept e p cycle in
      elim (Option-cases e.gossip) [
        | inl alone ↦ ground (arith, made es required now)
        | inr (bus, connected) ↦ elim (Option-cases (get_proposed bus cycle)) [
          | inl missing ↦ ground (arith, made (snapshot bus) required now)
          | inr (b, found) ↦ ground (arith, made (snapshot bus) required now)
        ]
      ]

  follow_proposal-Kept :
      (e : Engine) (p : Peer) (cycle : ℕ) → Kept e (follow_proposal env w e p cycle).0
  unfolding follow_proposal
  follow_proposal-Kept e p cycle = elim (Option-cases e.gossip) [
    | inl alone ↦ ground arith
    | inr (bus, connected) ↦ elim (Option-cases (get_proposed (w.for_proposal bus) cycle)) [
      | inl missing ↦ ground arith
      | inr (b, found) ↦ elim (Option-cases (insert_entries env.blake3 e.st (or_nil b.anchored))) [
        | inl failed ↦ ground arith
        | inr (t, inserted) ↦ elim (Result-cases (check_proposal env w e p cycle t b)) [
          | inl (u, good) ↦ ground arith
          | inr (x, bad) ↦ ground arith
        ]
      ]
    ]
  ]

  wait_for_signatures-Kept :
      (e : Engine) (cycle : ℕ) (am : Bool) (b : Block) (required : ℕ) (sigs : Table Bytes Bytes)
      → Kept e (wait_for_signatures env w e cycle am b required sigs).0
  unfolding wait_for_signatures
  wait_for_signatures-Kept e cycle am b required sigs = elim (Option-cases e.gossip) [
    | inl alone ↦ ground arith
    | inr (bus, connected) ↦
        let waited = record e { gossip = some (w.for_signatures bus) } in
        elim (Option-cases (collect_valid_sigs env w waited cycle am b)) [
          | inl panic ↦ ground arith
          | inr (more, found) ↦ ground arith
        ]
  ]

  gather-Kept :
      (e : Engine) (cycle : ℕ) (leader : Bytes) (am check : Bool) (required : ℕ) (b : Block)
      → Kept e (gather env w e cycle leader am check required b).0
  unfolding gather
  gather-Kept e cycle leader am check required b =
      elim (Option-cases (collect_valid_sigs env w e cycle am b)) [
        | inl panic ↦ ground arith
        | inr (sigs, found) ↦ ground (arith, wait_for_signatures-Kept e cycle am b required sigs)
      ]

  then_gather-Kept :
      (a : Engine) (cycle : ℕ) (leader : Bytes) (am check : Bool) (required : ℕ)
      (p : Engine × Result PrepareError Block)
      → Kept a p.0
      → Kept a (then_gather env w cycle leader am check required p).0
  then_gather-Kept a cycle leader am check required (e, err x) h = h
  then_gather-Kept a cycle leader am check required (e, ok b) h =
      Kept-trans a e _ h (gather-Kept e cycle leader am check required b)

  with_proposer-Kept :
      (e : Engine) (p : Peer) (cycle : ℕ) (es : List ProvenanceEntry) (check : Bool)
      (required now : ℕ)
      → Kept e (with_proposer env w e p cycle es check required now).0
  unfolding with_proposer
  with_proposer-Kept e p cycle es check required now =
      let leads = propose_block-Kept e p cycle es check required now in
      let follows = follow_proposal-Kept e p cycle in
      elim (Bool-cases (is_inactive env.floats e (peer_id p))) [
        | inl inactive ↦ ground arith
        | inr active ↦ elim (Bool-cases (peer_id p == own_id e)) [
          | inl mine ↦
              rw (active, mine) (then_gather-Kept e cycle (peer_id p) true check required _ leads)
          | inr other ↦
              rw (active, other)
                (then_gather-Kept e cycle (peer_id p) false check required _ follows)
        ]
      ]

  wait_for_vrf_proofs-Kept :
      (e : Engine) (cycle : ℕ) (local : Bytes) → Kept e (wait_for_vrf_proofs env w e cycle local)
  unfolding wait_for_vrf_proofs
  wait_for_vrf_proofs-Kept e cycle local = ground arith

  pub run_prepare_phase-Kept :
      (e : Engine) (cycle : ℕ) (root : Bytes) (es : List ProvenanceEntry) (check : Bool)
      (required now : ℕ)
      → Kept e (run_prepare_phase env w e cycle root es check required now).0
  unfolding run_prepare_phase
  run_prepare_phase-Kept e cycle root es check required now =
      elim (Option-cases (env.vrf_prove (make_alpha cycle root))) [
        | inl failed ↦ ground arith
        | inr (local, proved) ↦
            let shown = show_proof env w e cycle local in
            let waited = wait_for_vrf_proofs env w shown cycle local in
            let until =
              Kept-trans e shown waited refl (wait_for_vrf_proofs-Kept shown cycle local) in
            elim (Result-cases (
              select_proposer env.vrf_verify (proposer_peers waited) cycle root
                (collect_vrf_proofs env.unmarshal_vrf_proof waited cycle local))) [
                  | inl (best, chosen) ↦
                      rw (run_prepare_phase, proved, chosen)
                        (Kept-trans e waited _ until
                          (with_proposer-Kept waited best.peer cycle es check required now))
                  | inr (x, bad) ↦ rw (run_prepare_phase, proved, bad) until
                ]
      ]
