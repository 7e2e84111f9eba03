-- ===== src/Engine/Cycle.antt =====
-- RunCycle of pkg/consensus/engine.go. `clock` gives the clock's readings one after the other, and
-- `computed` the value of laplacian.Compute. Writing to storage and the external anchors are left out.
use gleipnir.Prelude.{
  codes, or_nil, ℕ, ◌-◌, Bool, true, false, not, ◌&&◌, Bytes, bytes_eq, nat_eq, ◌==◌, Option, none,
  some, List, [], ◌∷◌, ◌++◌, length, nat_beq, if◌then◌else◌,
}
use gleipnir.Prelude.Int.{ℤ, pos}
use gleipnir.Prelude.Words.{add64}
use gleipnir.Prelude.Table.{Table, insert}
use gleipnir.Prelude.Results.{Result, ok, err}
use gleipnir.Chain.{Block, ProvenanceEntry}
use gleipnir.Consensus.Quorum.{quorum_required}
use gleipnir.Consensus.Degraded.{DegradedMode, check_transition, apply_degraded_block}
use gleipnir.Consensus.Commit.{degraded_label}
use gleipnir.Consensus.Gossip.{label_proposed, MemoryBus, get_final, remove_entries}
use gleipnir.Consensus.Commit.Phase.{
  PrepareResult, Committer, CommitError, run_commit_phase, publishes,
}
use gleipnir.Smt.{SparseMerkleTree, prove}
use gleipnir.Engine.{Engine, NetworkState, AnchorProof, ingest, next_cycle, knows}
use gleipnir.Engine.Rotations.{sync_key_rotation_state, process_key_rotation_entries}
use gleipnir.Engine.Bodies.{process_mandate_entries}
use gleipnir.Engine.Transition.{ApplyError, apply}
use gleipnir.Engine.Prepare.{
  Env, Waits, PrepareError, index_out_of_range, own_id, after, run_prepare_phase,
}

-- How a cycle ends; after a panic, which RunCycle recovers from, nothing more is done.
pub data Outcome : Type 0 where
  skipped aborted panicked : Outcome
  committed : Block → Outcome

-- e.state.Cycle++
abbrev pub ticked : Engine → Engine
ticked e = record e { state = record e.state { cycle = add64 e.state.cycle 1 } }

-- What every failure path does: the entries are retained and the tree is put back.
unfoldable pub abort : SparseMerkleTree → List ProvenanceEntry → Engine → Engine
abort before all e = ticked (record e { pending_entries = all; st = before })

-- requiredQuorum
unfoldable pub active_validators : Engine → ℕ
active_validators e =
    if nat_beq (length e.state.validator_set) 0
    then length e.peers
    else length e.state.validator_set

abbrev in_degraded_mode : Option DegradedMode → Bool
in_degraded_mode none = false
in_degraded_mode (some d) = d.in_degraded

unfoldable pub cycle_quorum : Engine → ℕ
cycle_quorum e = if in_degraded_mode e.degraded then 1 else quorum_required (active_validators e)

-- The entries that are in no committed block.
unfoldable pub uncommitted : List ProvenanceEntry → List ProvenanceEntry → List ProvenanceEntry
uncommitted committed_entries [] = []
uncommitted committed_entries (e ∷ es) =
    let rest = uncommitted committed_entries es in
    if not (knows committed_entries e.hash) then e ∷ rest else rest

-- The siblings one behind the other; no proof is an empty one.
abbrev flat : List Bytes → Bytes
flat [] = []
flat (p ∷ ps) = p ++ flat ps

abbrev proof_bytes : Option (List Bytes) → Bytes
proof_bytes none = []
proof_bytes (some proof) = flat proof

abbrev pub proof_of : SparseMerkleTree → ℕ → ℤ → ProvenanceEntry → AnchorProof
proof_of t index time e = record {
  found = true;
  block_index = index;
  block_time = time;
  state_root = t.root;
  smt_proof = proof_bytes (prove t e.hash);
  submitter = e.submitter;
  label = e.label;
}

-- The loop that fills e.anchored.
unfoldable pub anchor_entries :
    SparseMerkleTree
    → ℕ
    → ℤ
    → Table Bytes AnchorProof
    → List ProvenanceEntry
    → Table Bytes AnchorProof
anchor_entries t index time anchored [] = anchored
anchor_entries t index time anchored (e ∷ es) =
    anchor_entries t index time (insert e.hash (proof_of t index time e) anchored) es

abbrev marks : List ProvenanceEntry → Table Bytes Bool
marks [] = []
marks (e ∷ es) = insert e.hash true (marks es)

-- What follows once the state transition has been applied.
unfoldable pub append_block : Engine → Block → Engine
append_block e block = record e {
  pending_entries = uncommitted (or_nil block.anchored) e.pending_entries;
  pending = [];
  blocks = e.blocks ++ (block ∷ []);
  anchored =
      anchor_entries e.st (length (e.blocks ++ (block ∷ [])) - 1) block.timestamp e.anchored
        (or_nil block.anchored);
  gossip = after (λ bus. remove_entries bus (marks (or_nil block.anchored))) e.gossip;
}

unfoldable pub committer_of : Engine → Committer
committer_of e = record {
  my_id = own_id e;
  secret_key = e.node.secret_key;
  peers = e.peers;
  has_gossip = elim e.gossip [ none ↦ false | some bus ↦ true ];
  rotations = e.rotations;
}

abbrev pub final_of : Option MemoryBus → ℕ → Option Block
final_of none cycle = none
final_of (some bus) cycle = get_final bus cycle

module _ (env : Env) (w : Waits) (clock : ℕ → ℕ) (computed : ℕ) where
  -- ApplyDegradedBlock writes its label into the block's Metadata map. The leader's final block is a
  -- shallow copy of the proposal that the bus holds, and shares that map with it.
  abbrev write_through : Bool → ℕ → Engine → Engine
  write_through shared cycle e =
      if shared
      then record e {
        gossip = after (λ bus. label_proposed bus cycle degraded_label (codes "true")) e.gossip;
      }
      else e

  -- CheckDegradedTransition and ApplyDegradedBlock.
  unfoldable pub degrade : Engine → PrepareResult → Block → Engine × Option Block
  degrade e r block = elim e.degraded [
    | none ↦ (e, some block)
    | some d ↦
        let d' = (check_transition d (pos (active_validators e)) r.quorum_reached).0 in
        let moved = record e { degraded = some d' } in
        elim (apply_degraded_block env.lib d' block e.peers) [
          | err x ↦ (moved, none)
          | ok block' ↦
              let shared = d'.in_degraded && r.leader_id == own_id e in
              (write_through shared block.index moved, some block')
        ]
  ]

  -- The state transition and the block's place in the chain, from the final block on.
  abbrev pub applied :
      SparseMerkleTree
      → List ProvenanceEntry
      → Engine
      → Block
      → Result ApplyError NetworkState
      → Engine × Outcome
  applied before all e block (err x) = (abort before all e, aborted)
  applied before all e block (ok next) =
      (append_block (record e { state = next }) block, committed block)

  abbrev pub finish :
      SparseMerkleTree → List ProvenanceEntry → Engine × Option Block → Engine × Outcome
  finish before all (e, none) = (abort before all e, aborted)
  finish before all (e, some block) = applied before all e block (
      apply env.floats env.supervision_root e.state e.state.supervision_root (own_id e ∷ []) e.cfg
        computed)

  -- The COMMIT phase over the bus: who does not lead waits for the final block.
  unfoldable pub waited_for_final : Engine → PrepareResult → Engine
  waited_for_final e r =
      if r.quorum_reached && not (r.leader_id == own_id e)
      then record e { gossip = after w.for_final e.gossip }
      else e

  abbrev pub settle :
      SparseMerkleTree
      → List ProvenanceEntry
      → Engine
      → PrepareResult
      → Result CommitError Block
      → Engine × Outcome
  settle before all e r (err x) = (abort before all e, aborted)
  settle before all e r (ok block) = finish before all (degrade e r block)

  unfoldable pub commit_cycle :
      SparseMerkleTree → List ProvenanceEntry → ℕ → Engine → PrepareResult → Engine × Outcome
  commit_cycle before all cycle e r =
      let waited = waited_for_final e r in
      let c = committer_of e in
      let done = record waited { gossip = after (publishes env.lib env.codec c r) waited.gossip } in
      settle before all done r
        (run_commit_phase env.lib env.codec c cycle r (final_of waited.gossip cycle))

  -- A PREPARE phase that fails, or panics.
  abbrev pub stop :
      SparseMerkleTree → List ProvenanceEntry → Engine → PrepareError → Engine × Outcome
  stop before all e index_out_of_range = (e, panicked)
  stop before all e _ = (abort before all e, aborted)

  abbrev pub then_commit :
      SparseMerkleTree
      → List ProvenanceEntry
      → ℕ
      → Engine × Result PrepareError PrepareResult
      → Engine × Outcome
  then_commit before all cycle (e, err x) = stop before all e x
  then_commit before all cycle (e, ok r) = commit_cycle before all cycle e r

  abbrev pub then_check :
      SparseMerkleTree
      → List ProvenanceEntry
      → ℕ
      → Bytes
      → ℕ
      → Engine × Result PrepareError PrepareResult
      → Engine × Outcome
  then_check before all cycle root required (e, err x) = stop before all e x
  then_check before all cycle root required (e, ok r) =
      then_commit before all cycle
        (run_prepare_phase env w e cycle root all true required (clock 2))

  -- The cycle once the batch is known.
  unfoldable pub run_batch : Engine → List ProvenanceEntry → Engine × Outcome
  run_batch e all =
      let admitted =
        process_mandate_entries env.mandate_codec env.lib
          (process_key_rotation_entries env.lib env.rotation_codec e all) all in
      let cycle = next_cycle e in
      let required = cycle_quorum admitted in
      then_check e.st all cycle admitted.st.root required
        (run_prepare_phase env w admitted cycle admitted.st.root all false required (clock 1))

  unfoldable pub run_cycle : Engine → Engine × Outcome
  run_cycle e =
      let synced = sync_key_rotation_state (ingest e (clock 0)) in
      let all = synced.pending_entries ++ synced.pending in
      if nat_beq (length all) 0 && synced.cfg.skip_empty_cycles
      then (ticked synced, skipped)
      else run_batch synced all
