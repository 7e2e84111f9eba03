-- ===== src/Transport/P2p/Finals.antt =====
-- What a node that only follows can come to hold: no final block, and one VRF proof a signer.
use gleipnir.Prelude.{
  ℕ, ◌≡◌, refl, sym, ◌∙◌, subst, inl, inr, Bool-cases, Bool, true, false, Bytes, bytes_eq, nat_eq,
  ◌==◌, Option, none, some, List, [], ◌∷◌, ◌++◌, arith, if◌then◌else◌,
}
use gleipnir.Prelude.Table.{Table, lookup, lookup-insert}
use gleipnir.Prelude.Results.{err}
use gleipnir.Chain.{Block, ProvenanceEntry}
use gleipnir.Chain.BlockHash.{HashCodec}
use gleipnir.Identity.Dilithium.{Mldsa}
use gleipnir.Consensus.Gossip.{BlockSig, VrfProofMsg, has_prover, or_nothing}
use gleipnir.Consensus.Commit.Phase.{Committer, PrepareResult, no_final, run_commit_phase}
use gleipnir.Transport.P2p.{
  Json, Protocol, entries, proposals, sigs, vrf_proofs, GossipBus, AddrInfo, publish, propose,
  add_sig, publish_sig, add_proof, publish_vrf_proof, remove_entries, get_final, get_vrf_proofs,
  read_framed, receive, handle_stream, connected_f, disconnected_f, remember_peer,
  connect_to_peer_info, handle_peer_found, dial,
}

-- What happens at a node: any stream that arrives, and each of its own methods but PublishFinal,
-- which only the leader calls.
pub data Event : Type 0 where
  receives : Protocol → Bytes → Event
  publishes : ProvenanceEntry → Event
  proposes : Block → Event
  signs : BlockSig → Event
  proves : VrfProofMsg → Event
  removes : Table Bytes Bool → Event
  connects disconnects : Bytes → Event
  finds : AddrInfo → Event
  dials : Bytes → List Bytes → Event

unfoldable pub happens : Json → GossipBus → Event → GossipBus
happens json b (receives proto bytes) = handle_stream json b proto bytes
happens json b (publishes entry) = (publish json b entry).0
happens json b (proposes block) = (propose json b block).0
happens json b (signs s) = (publish_sig json b s).0
happens json b (proves m) = (publish_vrf_proof json b m).0
happens json b (removes remove) = remove_entries b remove
happens json b (connects id) = connected_f b id
happens json b (disconnects id) = disconnected_f b id
happens json b (finds pi) = handle_peer_found b pi
happens json b (dials id addrs) = dial b id addrs

abbrev pub happen_all : Json → GossipBus → List Event → GossipBus
happen_all json b [] = b
happen_all json b (ev ∷ evs) = happen_all json (happens json b ev) evs

remember_peer-held :
    (b : GossipBus) (pi : AddrInfo)
    → ((remember_peer b pi).held_finals ≡ b.held_finals)
      × ((remember_peer b pi).held_proofs ≡ b.held_proofs)
unfolding remember_peer
remember_peer-held b pi = ground arith

receive-finals :
    (json : Json) (b : GossipBus) (proto : Protocol) (body : Bytes)
    → (receive json b proto body).held_finals ≡ b.held_finals
unfolding receive add_sig add_proof
receive-finals json b entries body = ground arith
receive-finals json b proposals body = ground arith
receive-finals json b sigs body = ground arith
receive-finals json b vrf_proofs body = ground arith

happens-finals :
    (json : Json) (b : GossipBus) (ev : Event) → (happens json b ev).held_finals ≡ b.held_finals
unfolding happens publish propose publish_sig publish_vrf_proof add_sig add_proof remove_entries
    connected_f disconnected_f handle_peer_found connect_to_peer_info dial handle_stream
happens-finals json b (receives proto bytes) =
    elim (read_framed bytes)
      as (λ o.
        (elim o as (λ x. GossipBus) [
          | none ↦ b
          | some body ↦ receive json b proto body
        ]).held_finals
        ≡ b.held_finals) [ none ↦ refl | some body ↦ receive-finals json b proto body ]
happens-finals json b (publishes entry) = refl
happens-finals json b (proposes block) = ground arith
happens-finals json b (signs s) = refl
happens-finals json b (proves m) = ground arith
happens-finals json b (removes remove) = refl
happens-finals json b (connects id) = refl
happens-finals json b (disconnects id) = refl
happens-finals json b (finds pi) =
    ground (arith, (remember_peer-held b pi).0, (remember_peer-held (remember_peer b pi) pi).0)
happens-finals json b (dials id []) = refl
happens-finals json b (dials id (a ∷ as')) = (remember_peer-held b _).0

happen_all-finals :
    (json : Json) (evs : List Event) (b : GossipBus)
    → (happen_all json b evs).held_finals ≡ b.held_finals
happen_all-finals json [] b = refl
happen_all-finals json (ev ∷ evs) b =
    happen_all-finals json evs (happens json b ev) ∙ happens-finals json b ev

-- Over this channel a follower never commits: whatever streams arrive and whatever it calls, but for
-- PublishFinal, a final block that it did not hold never comes, so RunCommitPhase ends without one.
pub follower_never_commits :
    (json : Json) (lib : Mldsa) (codec : HashCodec) (b : GossipBus) (evs : List Event) (cycle : ℕ)
    (e : Committer) (r : PrepareResult)
    → get_final b cycle ≡ none
    → r.quorum_reached ≡ true
    → (r.leader_id == e.my_id) ≡ false
    → e.has_gossip ≡ true
    → run_commit_phase lib codec e cycle r (get_final (happen_all json b evs) cycle) ≡ err no_final
unfolding get_final run_commit_phase
follower_never_commits json lib codec b evs cycle e r held q follower g =
    rw (happen_all-finals json evs b, held, q, follower, g) refl

-- The first proof of a signer.
abbrev pub proof_of : Bytes → List VrfProofMsg → Option VrfProofMsg
proof_of signer [] = none
proof_of signer (m ∷ ms) = if m.signer_id == signer then some m else proof_of signer ms

proof_of-append :
    (signer : Bytes) (xs ys : List VrfProofMsg) (m : VrfProofMsg)
    → proof_of signer xs ≡ some m
    → proof_of signer (xs ++ ys) ≡ some m
proof_of-append signer [] ys m h = absurd (ground arith)
proof_of-append signer (x ∷ xs) ys m h = ground (arith, proof_of-append signer xs ys m)

add_proof-proof_of :
    (b : GossipBus) (new m : VrfProofMsg) (cycle : ℕ) (signer : Bytes)
    → proof_of signer (get_vrf_proofs b cycle) ≡ some m
    → proof_of signer (get_vrf_proofs (add_proof b new) cycle) ≡ some m
unfolding get_vrf_proofs add_proof
add_proof-proof_of b new m cycle signer h = elim (Bool-cases (new.cycle == cycle)) [
  | inl here ↦
      let same : new.cycle ≡ cycle = nat_eq.test_sound new.cycle cycle here in
      let old = or_nothing (lookup new.cycle b.held_proofs) in
      let was : proof_of signer old ≡ some m =
        subst (λ c. proof_of signer (or_nothing (lookup c b.held_proofs)) ≡ some m) (sym same) h in
      rw (lookup-insert new.cycle cycle (old ++ new ∷ []) b.held_proofs, here)
        (proof_of-append signer old (new ∷ []) m was)
  | inr elsewhere ↦
      rw
        (
          lookup-insert new.cycle cycle (or_nothing (lookup new.cycle b.held_proofs) ++ new ∷ [])
              b.held_proofs,
          elsewhere,
        )
        h
]

module _ (json : Json) (cycle : ℕ) (signer : Bytes) (m : VrfProofMsg) where
  abbrev Holds : GossipBus → Type 0
  Holds b = proof_of signer (get_vrf_proofs b cycle) ≡ some m

  unchanged : (b b' : GossipBus) → b'.held_proofs ≡ b.held_proofs → Holds b → Holds b'
  unfolding get_vrf_proofs
  unchanged b b' same h =
      subst (λ t. proof_of signer (or_nothing (lookup cycle t)) ≡ some m) (sym same) h

  offered-Holds :
      (b : GossipBus) (new : VrfProofMsg) (test : Bool)
      → Holds b
      → Holds (if test then b else add_proof b new)
  offered-Holds b new true h = h
  offered-Holds b new false h = add_proof-proof_of b new m cycle signer h

  receive-Holds :
      (b : GossipBus) (proto : Protocol) (body : Bytes)
      → Holds b
      → Holds (receive json b proto body)
  unfolding receive
  receive-Holds b entries body h = unchanged b (receive json b entries body) (ground arith) h
  receive-Holds b proposals body h = unchanged b (receive json b proposals body) (ground arith) h
  receive-Holds b sigs body h =
      elim (json.to_sig body) as (λ o. Holds (elim o [ none ↦ b | some s ↦ add_sig b s ])) [
        | none ↦ h
        | some s ↦ unchanged b (add_sig b s) refl h
      ]
  receive-Holds b vrf_proofs body h =
      elim (json.to_proof body)
        as (λ o. Holds (elim o [
          | none ↦ b
          | some new ↦
              if has_prover new.signer_id (or_nothing (lookup new.cycle b.held_proofs))
              then b
              else add_proof b new
        ])) [ none ↦ h | some new ↦ offered-Holds b new _ h ]

  happens-Holds : (b : GossipBus) (ev : Event) → Holds b → Holds (happens json b ev)
  unfolding happens publish propose publish_sig publish_vrf_proof add_sig remove_entries connected_f
      disconnected_f handle_peer_found connect_to_peer_info dial handle_stream
  happens-Holds b (receives proto bytes) h =
      elim (read_framed bytes)
        as (λ o. Holds (elim o [ none ↦ b | some body ↦ receive json b proto body ])) [
          | none ↦ h
          | some body ↦ receive-Holds b proto body h
        ]
  happens-Holds b (publishes entry) h = unchanged b _ refl h
  happens-Holds b (proposes block) h = unchanged b (propose json b block).0 (ground arith) h
  happens-Holds b (signs s) h = unchanged b _ refl h
  happens-Holds b (proves new) h =
      let taken = has_prover new.signer_id (or_nothing (lookup new.cycle b.held_proofs)) in
      elim (Bool-cases taken) [
        | inl before ↦ rw (happens, publish_vrf_proof, before) h
        | inr first ↦
            rw (happens, publish_vrf_proof, first) (add_proof-proof_of b new m cycle signer h)
      ]
  happens-Holds b (removes remove) h = unchanged b _ refl h
  happens-Holds b (connects id) h = unchanged b _ refl h
  happens-Holds b (disconnects id) h = unchanged b _ refl h
  happens-Holds b (finds pi) h =
      unchanged b (handle_peer_found b pi)
        (ground
          (arith, (remember_peer-held b pi).1, (remember_peer-held (remember_peer b pi) pi).1))
        h
  happens-Holds b (dials id []) h = h
  happens-Holds b (dials id (a ∷ as')) h = unchanged b _ (remember_peer-held b _).1 h

  -- The first VRF proof of a signer that a node holds for a cycle stays the first, whatever streams
  -- arrive and whatever else happens: no later proof takes its place.
  pub first_proof_stays :
      (evs : List Event) (b : GossipBus)
      → proof_of signer (get_vrf_proofs b cycle) ≡ some m
      → proof_of signer (get_vrf_proofs (happen_all json b evs) cycle) ≡ some m
  first_proof_stays [] b h = h
  first_proof_stays (ev ∷ evs) b h =
      first_proof_stays evs (happens json b ev) (happens-Holds b ev h)
