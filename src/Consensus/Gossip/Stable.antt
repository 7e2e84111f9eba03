-- ===== src/Consensus/Gossip/Stable.antt =====
-- What nobody can change on the bus once it is there.
use gleipnir.Prelude.{
  ℕ, ◌≡◌, refl, Bool, true, false, Bytes, bytes_eq, nat_eq, nat_beq_iff, bytes_beq_iff, ◌==◌, some,
  List, [], ◌∷◌, ◌++◌, if◌then◌else◌, arith, Option-cases, Bool-cases, inl, inr,
}
use gleipnir.Prelude.Table.{Table, lookup, insert, lookup-insert}
use gleipnir.Chain.{Block, ProvenanceEntry}
use gleipnir.Consensus.Gossip.{
  MemoryBus, BlockSig, VrfProofMsg, new_memory_bus, publish, remove_entries, propose, get_proposed,
  publish_final, has_signer, get_sigs, publish_sig, publish_vrf_proof,
}

-- One call that writes to the bus.
pub data Write : Type 0 where
  publishes : ProvenanceEntry → Write
  removes : Table Bytes Bool → Write
  proposes : Block → Write
  finalises : Block → Write
  signs : BlockSig → Write
  proves : VrfProofMsg → Write

abbrev pub step : MemoryBus → Write → MemoryBus
step b (publishes e) = publish b e
step b (removes r) = remove_entries b r
step b (proposes block) = propose b block
step b (finalises block) = publish_final b block
step b (signs s) = publish_sig b s
step b (proves m) = publish_vrf_proof b m

unfoldable pub steps : MemoryBus → List Write → MemoryBus
steps b [] = b
steps b (w ∷ ws) = steps (step b w) ws

propose-get_proposed :
    (b : MemoryBus) (block first : Block) (cycle : ℕ)
    → get_proposed b cycle ≡ some first
    → get_proposed (propose b block) cycle ≡ some first
unfolding propose get_proposed
propose-get_proposed b block first cycle h = elim (Option-cases (lookup block.index b.proposals)) [
  | inl free ↦
      rw (free, propose)
        (rw (lookup-insert block.index cycle block b.proposals)
          (ground (arith, nat_beq_iff block.index cycle)))
  | inr (earlier, taken) ↦ rw (taken, propose) h
]

step-get_proposed :
    (b : MemoryBus) (w : Write) (first : Block) (cycle : ℕ)
    → get_proposed b cycle ≡ some first
    → get_proposed (step b w) cycle ≡ some first
unfolding get_proposed publish remove_entries publish_final publish_sig publish_vrf_proof
step-get_proposed b (publishes e) first cycle h = h
step-get_proposed b (removes r) first cycle h = h
step-get_proposed b (proposes block) first cycle h = propose-get_proposed b block first cycle h
step-get_proposed b (finalises block) first cycle h = h
step-get_proposed b (signs s) first cycle h = ground arith
step-get_proposed b (proves m) first cycle h = ground arith

-- A candidate block, once there, is what every node reads for its cycle, whatever is written to the
-- bus afterwards: a proposer cannot replace it.
pub proposal_stays :
    (b : MemoryBus) (ws : List Write) (first : Block) (cycle : ℕ)
    → get_proposed b cycle ≡ some first
    → get_proposed (steps b ws) cycle ≡ some first
unfolding steps
proposal_stays b [] first cycle h = h
proposal_stays b (w ∷ ws) first cycle h =
    proposal_stays (step b w) ws first cycle (step-get_proposed b w first cycle h)

-- No signer stands twice.
abbrev pub OneEach : List BlockSig → Type 0
OneEach [] = Unit
OneEach (s ∷ ss) = (has_signer s.signer_id ss ≡ false) × OneEach ss

has_signer-append :
    (id : Bytes) (ss : List BlockSig) (s : BlockSig)
    → has_signer id (ss ++ s ∷ []) ≡ (if s.signer_id == id then true else has_signer id ss)
unfolding has_signer
has_signer-append id [] s = refl
has_signer-append id (t ∷ ss) s = ground (arith, has_signer-append id ss s)

OneEach-append :
    (ss : List BlockSig) (s : BlockSig)
    → OneEach ss
    → has_signer s.signer_id ss ≡ false
    → OneEach (ss ++ s ∷ [])
unfolding has_signer
OneEach-append [] s o h = (refl, tt)
OneEach-append (t ∷ ss) s o h = (
  ground (
    arith,
    has_signer-append t.signer_id ss s,
    bytes_beq_iff s.signer_id t.signer_id,
    bytes_beq_iff t.signer_id s.signer_id,
  ),
  OneEach-append ss s o.1 (ground arith),
)

-- Each signer has one signature of a cycle at most.
abbrev pub IsSignedOnce : MemoryBus → Type 0
IsSignedOnce b = (cycle : ℕ) → OneEach (get_sigs b cycle)

get_sigs-insert :
    (cycle j : ℕ) (ss : List BlockSig) (b : MemoryBus)
    → get_sigs (record b { sigs = insert cycle ss b.sigs }) j
      ≡ (if cycle == j then ss else get_sigs b j)
unfolding get_sigs
get_sigs-insert cycle j ss b = rw (lookup-insert cycle j ss b.sigs) (ground arith)

publish_sig-IsSignedOnce :
    (b : MemoryBus) (s : BlockSig) → IsSignedOnce b → IsSignedOnce (publish_sig b s)
unfolding publish_sig
publish_sig-IsSignedOnce b s v cycle =
    elim (Bool-cases (has_signer s.signer_id (get_sigs b s.cycle))) [
      | inl known ↦ rw known (v cycle)
      | inr new ↦
          rw (new, get_sigs-insert s.cycle cycle (get_sigs b s.cycle ++ s ∷ []) b)
            (elim (Bool-cases (s.cycle == cycle)) [
              | inl same ↦ rw same (OneEach-append (get_sigs b s.cycle) s (v s.cycle) new)
              | inr other ↦ rw other (v cycle)
            ])
    ]

same-IsSignedOnce : (b b' : MemoryBus) → b'.sigs ≡ b.sigs → IsSignedOnce b → IsSignedOnce b'
unfolding get_sigs
same-IsSignedOnce b b' e v cycle = rw e (v cycle)

step-IsSignedOnce : (b : MemoryBus) (w : Write) → IsSignedOnce b → IsSignedOnce (step b w)
unfolding publish remove_entries publish_final propose publish_vrf_proof
step-IsSignedOnce b (publishes e) v = same-IsSignedOnce b _ refl v
step-IsSignedOnce b (removes r) v = same-IsSignedOnce b _ refl v
step-IsSignedOnce b (proposes block) v = same-IsSignedOnce b (propose b block) (ground arith) v
step-IsSignedOnce b (finalises block) v = same-IsSignedOnce b _ refl v
step-IsSignedOnce b (signs s) v = publish_sig-IsSignedOnce b s v
step-IsSignedOnce b (proves m) v = same-IsSignedOnce b (publish_vrf_proof b m) (ground arith) v

steps-IsSignedOnce : (b : MemoryBus) (ws : List Write) → IsSignedOnce b → IsSignedOnce (steps b ws)
unfolding steps
steps-IsSignedOnce b [] v = v
steps-IsSignedOnce b (w ∷ ws) v = steps-IsSignedOnce (step b w) ws (step-IsSignedOnce b w v)

-- On a bus that starts empty, whatever is written to it, each signer has one signature of a cycle at
-- most.
pub signed_once : (ws : List Write) → IsSignedOnce (steps new_memory_bus ws)
unfolding new_memory_bus get_sigs lookup
signed_once ws = steps-IsSignedOnce new_memory_bus ws (λ cycle. tt)
