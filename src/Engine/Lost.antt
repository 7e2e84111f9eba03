-- ===== src/Engine/Lost.antt =====
-- What becomes of an entry that Submit accepted.
use gleipnir.Prelude.{
  or_nil, ℕ, ◌≡◌, refl, ap, ◌∙◌, subst, false, Bytes, bytes_eq, some, List, [], ◌∷◌, arith,
  Option-cases, inl, inr,
}
use gleipnir.Prelude.Results.{ok, Result-cases}
use gleipnir.Prelude.{length, ◌-◌}
use gleipnir.Prelude.Int.{ℤ}
use gleipnir.Prelude.Table.{Table, lookup, insert, lookup-insert}
use gleipnir.Smt.{SparseMerkleTree}
use gleipnir.Chain.{Block, ProvenanceEntry}
use gleipnir.Consensus.Gossip.{MemoryBus, snapshot}
use gleipnir.Engine.{Engine, api_limits_of, check_entry, knows, ingest, AnchorProof, lookup_hash}
use gleipnir.Engine.Submission.{Ticket, submit, allows, add_pending}
use gleipnir.Engine.Prepare.{Env, Waits}
use gleipnir.Engine.Cycle.{anchor_entries, proof_of, committed, uncommitted, run_cycle}
use gleipnir.Engine.Atomic.{Ends, run_cycle-Ends}
use gleipnir.Engine.Pool.{holds, knows-append, ingest-retained}

knows-uncommitted :
    (done es : List ProvenanceEntry) (h : Bytes)
    → knows es h ≡ false
    → knows (uncommitted done es) h ≡ false
unfolding knows uncommitted
knows-uncommitted done [] h gone = refl
knows-uncommitted done (e ∷ es) h gone = ground (arith, knows-uncommitted done es h (ground arith))

-- Submit changes neither the bus nor what is retained.
submit-keeps :
    (e : Engine) (hash submitter label : Bytes) (now : ℕ)
    → ((submit e hash submitter label now).0.gossip ≡ e.gossip)
      × ((submit e hash submitter label now).0.pending_entries ≡ e.pending_entries)
      × ((submit e hash submitter label now).0.anchored ≡ e.anchored)
unfolding submit allows add_pending
submit-keeps e hash submitter label now =
    elim (Result-cases (check_entry hash submitter label (api_limits_of e))) [
      | inr (x, bad) ↦ ground arith
      | inl (u, good) ↦ elim (Option-cases e.rate_limiter) [
        | inl free ↦ ground arith
        | inr (sl, limited) ↦ ground arith
      ]
    ]

lookup-anchor_entries :
    (t : SparseMerkleTree) (index : ℕ) (time : ℤ) (h : Bytes) (es : List ProvenanceEntry)
    (a : Table Bytes AnchorProof)
    → knows es h ≡ false
    → lookup h (anchor_entries t index time a es) ≡ lookup h a
unfolding knows anchor_entries
lookup-anchor_entries t index time h [] a none_there = refl
lookup-anchor_entries t index time h (e ∷ es) a none_there =
    let rest =
      lookup-anchor_entries t index time h es (insert e.hash (proof_of t index time e) a)
        (ground arith) in
    rest ∙ rw (lookup-insert e.hash h (proof_of t index time e) a) (ground arith)

holds-nothing :
    (e : Engine) (h : Bytes)
    → e.pending ≡ []
    → knows e.pending_entries h ≡ false
    → holds e h ≡ false
unfolding knows
holds-nothing e h gone unretained =
    let n : knows e.pending h ≡ false = ground arith in
    rw (knows-append e.pending_entries e.pending h, unretained) n

module _ (env : Env) (w : Waits) (clock : ℕ → ℕ) (computed : ℕ) where
  -- An entry that Submit has accepted, that was not retained and is not on the bus, is lost with the
  -- next cycle that commits a block without it: the engine holds it no more, and has no proof of it
  -- that it did not have before.
  pub submit_lost :
      (e e' : Engine) (hash submitter label : Bytes) (now : ℕ) (ticket : Ticket) (bus : MemoryBus)
      (block : Block)
      → (submit e hash submitter label now).1 ≡ ok ticket
      → e.gossip ≡ some bus
      → knows e.pending_entries hash ≡ false
      → knows (snapshot bus) hash ≡ false
      → run_cycle env w clock computed (submit e hash submitter label now).0 ≡ (e', committed block)
      → knows (or_nil block.anchored) hash ≡ false
      → (holds e' hash ≡ false) × (lookup_hash e' hash ≡ lookup_hash e hash)
  unfolding lookup_hash
  submit_lost e e' hash submitter label now ticket bus block accepted connected fresh absent run
        without =
      let s = (submit e hash submitter label now).0 in
      let k = submit-keeps e hash submitter label now in
      let held = (ingest s (clock 0)).pending_entries in
      let ends =
        subst (Ends env computed s s.st held) run (run_cycle-Ends env w clock computed s) in
      let unheld =
        ingest-retained s (clock 0) bus hash (k.0 ∙ connected)
          (ap (λ es. knows es hash) k.1 ∙ fresh) absent in
      (
        holds-nothing e' hash ends.1 (
            ap (λ es. knows es hash) ends.2
            ∙ knows-uncommitted (or_nil block.anchored) held hash unheld),
        ap (lookup hash) ends.3
            ∙ (lookup-anchor_entries e'.st (length e'.blocks - 1) block.timestamp hash
                  (or_nil block.anchored) s.anchored without
                ∙ ap (lookup hash) k.2),
      )
