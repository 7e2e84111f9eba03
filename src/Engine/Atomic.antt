-- ===== src/Engine/Atomic.antt =====
-- A cycle adds one block, or leaves the chain and its tree alone.
use gleipnir.Prelude.{
  or_nil, ℕ, ◌≡◌, refl, sym, ap, ◌∙◌, true, false, Bytes, bytes_eq, nat_eq, Option, none, some,
  List, [], ◌∷◌, ◌++◌, arith, Bool-cases, Option-cases, inl, inr, nat_beq, length, ◌&&◌, subst, ◌-◌,
}
use gleipnir.Prelude.Int.{pos}
use gleipnir.Prelude.Words.{add64}
use gleipnir.Prelude.Results.{Result, ok, err, Result-cases}
use gleipnir.Chain.{Block, ProvenanceEntry}
use gleipnir.Consensus.Degraded.{check_transition, apply_degraded_block}
use gleipnir.Consensus.Commit.Phase.{PrepareResult, CommitError}
use gleipnir.Consensus.Gossip.{snapshot}
use gleipnir.Smt.{SparseMerkleTree}
use gleipnir.Consensus.Peer.{peer_id}
use gleipnir.Engine.{OwnNode, Config, Engine, NetworkState, ingest, fresh, with_added, next_cycle}
use gleipnir.Engine.Rotations.{sync_key_rotation_state, process_key_rotation_entries}
use gleipnir.Engine.Bodies.{process_mandate_entries}
use gleipnir.Engine.Prepare.{own_id}
use gleipnir.Engine.Transition.{ApplyError, apply}
use gleipnir.Engine.Prepare.{
  Env, Waits, PrepareError, index_out_of_range, run_prepare_phase, vrf_proof_error,
  selection_failed, proposer_inactive, no_proposal, no_entries, no_gossip, root_mismatch,
  hash_mismatch, proposer_sig_failed, below_bottom,
}
use gleipnir.Engine.Cycle.{
  cycle_quorum, uncommitted, anchor_entries, Outcome, skipped, aborted, panicked, committed, ticked,
  abort, append_block, active_validators, degrade, finish, applied, settle, waited_for_final,
  commit_cycle, stop, then_commit, then_check, run_batch, run_cycle,
}
use gleipnir.Engine.Rollback.{Kept, run_prepare_phase-Kept}

-- Chain, proofs, submissions, network state and settings are the same, and `held` is what is retained.
abbrev pub Near : Engine → List ProvenanceEntry → Engine → Type 0
Near e held e' =
    (e'.blocks ≡ e.blocks)
    × (e'.anchored ≡ e.anchored)
    × (e'.pending ≡ e.pending)
    × (e'.state ≡ e.state)
    × (e'.pending_entries ≡ held)
    × (e'.node ≡ e.node)
    × (e'.cfg ≡ e.cfg)

-- What the outcome of a cycle says of the engine after it, where `e` is the engine before it, `tree`
-- its tree, and `held` what it retains once it has read the bus.
abbrev pub Ends :
    Env → ℕ → Engine → SparseMerkleTree → List ProvenanceEntry → Engine × Outcome → Type 0
Ends env computed e tree held (e', skipped) =
    Near (ticked e) held e' × (e'.st ≡ tree) × (held ++ e.pending ≡ [])
Ends env computed e tree held (e', aborted) =
    Near (ticked e) (held ++ e.pending) e' × (e'.st ≡ tree)
Ends env computed e tree held (e', panicked) = Near e held e'
Ends env computed e tree held (e', committed block) =
    (e'.blocks ≡ e.blocks ++ (block ∷ []))
    × (e'.pending ≡ [])
    × (e'.pending_entries ≡ uncommitted (or_nil block.anchored) held)
    × (e'.anchored
        ≡ anchor_entries e'.st (length e'.blocks - 1) block.timestamp e.anchored
            (or_nil block.anchored))
    × (e'.node ≡ e.node)
    × (e'.cfg ≡ e.cfg)
    × (apply env.floats env.supervision_root e.state e.state.supervision_root (own_id e ∷ []) e.cfg
          computed
        ≡ ok e'.state)

Near-Kept :
    (a : Engine) (held : List ProvenanceEntry) (b c : Engine)
    → Near a held b
    → Kept b c
    → Near a held c
Near-Kept a held b c n k = (
  ap (λ (x : Engine). x.blocks) k ∙ n.0,
  ap (λ (x : Engine). x.anchored) k ∙ n.1,
  ap (λ (x : Engine). x.pending) k ∙ n.2,
  ap (λ (x : Engine). x.state) k ∙ n.3,
  ap (λ (x : Engine). x.pending_entries) k ∙ n.4,
  ap (λ (x : Engine). x.node) k ∙ n.5,
  ap (λ (x : Engine). x.cfg) k ∙ n.6,
)

module _ (env : Env) (w : Waits) (clock : ℕ → ℕ) (computed : ℕ) (base : Engine)
    (tree : SparseMerkleTree) (held : List ProvenanceEntry) where
  abbrev batch : List ProvenanceEntry
  batch = held ++ base.pending

  abort-Ends :
      (e : Engine)
      → Near base held e
      → Ends env computed base tree held (abort tree batch e, aborted)
  unfolding abort
  abort-Ends e n = (
    (
      n.0,
      n.1,
      n.2,
      ap (λ (s : NetworkState). record s { cycle = add64 s.cycle 1 }) n.3,
      refl,
      n.5,
      n.6,
    ),
    refl,
  )

  -- The state transition of a node with a configuration.
  abbrev transition : NetworkState → OwnNode → Config → Result ApplyError NetworkState
  transition s node cfg =
      apply env.floats env.supervision_root s s.supervision_root (peer_id node.uid ∷ []) cfg
        computed

  applied-Ends :
      (e : Engine) (block : Block) (r : Result ApplyError NetworkState)
      → Near base held e
      → transition e.state e.node e.cfg ≡ r
      → Ends env computed base tree held (applied env w clock computed tree batch e block r)
  unfolding append_block
  applied-Ends e block (err x) n gave = abort-Ends e n
  applied-Ends e block (ok next) n gave = (
    ap (λ bs. bs ++ (block ∷ [])) n.0,
    refl,
    ap (uncommitted (or_nil block.anchored)) n.4,
    ap
        (λ a.
          anchor_entries e.st (length (e.blocks ++ (block ∷ [])) - 1) block.timestamp a
            (or_nil block.anchored))
        n.1,
    n.5,
    n.6,
    ap (λ (x : NetworkState). transition x base.node base.cfg) (sym n.3)
        ∙ (ap (λ (x : OwnNode). transition e.state x base.cfg) (sym n.5)
            ∙ (ap (λ (x : Config). transition e.state e.node x) (sym n.6) ∙ gave)),
  )

  finish-Ends :
      (p : Engine × Option Block)
      → Near base held p.0
      → Ends env computed base tree held (finish env w clock computed tree batch p)
  finish-Ends (e, none) n = abort-Ends e n
  finish-Ends (e, some block) n = applied-Ends e block _ n refl

  degrade-Near :
      (e : Engine) (r : PrepareResult) (block : Block)
      → Near base held e
      → Near base held (degrade env w clock computed e r block).0
  unfolding degrade
  degrade-Near e r block n = elim (Option-cases e.degraded) [
    | inl plain ↦ ground arith
    | inr (d, mode) ↦
        let d' = (check_transition d (pos (active_validators e)) r.quorum_reached).0 in
        elim (Result-cases (apply_degraded_block env.lib d' block e.peers)) [
          | inl (b, good) ↦ ground arith
          | inr (x, bad) ↦ ground arith
        ]
  ]

  settle-Ends :
      (e : Engine) (r : PrepareResult) (c : Result CommitError Block)
      → Near base held e
      → Ends env computed base tree held (settle env w clock computed tree batch e r c)
  settle-Ends e r (err x) n = abort-Ends e n
  settle-Ends e r (ok block) n = finish-Ends _ (degrade-Near e r block n)

  waited_for_final-Near :
      (e : Engine) (r : PrepareResult)
      → Near base held e
      → Near base held (waited_for_final env w clock computed e r)
  unfolding waited_for_final
  waited_for_final-Near e r n = ground arith

  commit_cycle-Ends :
      (cycle : ℕ) (e : Engine) (r : PrepareResult)
      → Near base held e
      → Ends env computed base tree held (commit_cycle env w clock computed tree batch cycle e r)
  unfolding commit_cycle
  commit_cycle-Ends cycle e r n = settle-Ends _ r _ (waited_for_final-Near e r n)

  stop-Ends :
      (e : Engine) (x : PrepareError)
      → Near base held e
      → Ends env computed base tree held (stop env w clock computed tree batch e x)
  stop-Ends e index_out_of_range n = n
  stop-Ends e vrf_proof_error n = abort-Ends e n
  stop-Ends e selection_failed n = abort-Ends e n
  stop-Ends e proposer_inactive n = abort-Ends e n
  stop-Ends e no_proposal n = abort-Ends e n
  stop-Ends e no_entries n = abort-Ends e n
  stop-Ends e no_gossip n = abort-Ends e n
  stop-Ends e root_mismatch n = abort-Ends e n
  stop-Ends e hash_mismatch n = abort-Ends e n
  stop-Ends e proposer_sig_failed n = abort-Ends e n
  stop-Ends e below_bottom n = abort-Ends e n

  then_commit-Ends :
      (cycle : ℕ) (p : Engine × Result PrepareError PrepareResult)
      → Near base held p.0
      → Ends env computed base tree held (then_commit env w clock computed tree batch cycle p)
  then_commit-Ends cycle (e, err x) n = stop-Ends e x n
  then_commit-Ends cycle (e, ok r) n = commit_cycle-Ends cycle e r n

  then_check-Ends :
      (cycle : ℕ) (root : Bytes) (required : ℕ) (p : Engine × Result PrepareError PrepareResult)
      → Near base held p.0
      → Ends env computed base tree held
          (then_check env w clock computed tree batch cycle root required p)
  then_check-Ends cycle root required (e, err x) n = stop-Ends e x n
  then_check-Ends cycle root required (e, ok r) n = then_commit-Ends cycle _ (
      Near-Kept base held e _ n
        (run_prepare_phase-Kept env w e cycle root batch true required (clock 2)))

module _ (env : Env) (w : Waits) (clock : ℕ → ℕ) (computed : ℕ) where
  run_batch-Ends :
      (base e : Engine) (held : List ProvenanceEntry)
      → Near base held e
      → Ends env computed base e.st held (run_batch env w clock computed e (held ++ base.pending))
  unfolding run_batch process_key_rotation_entries process_mandate_entries
  run_batch-Ends base e held n =
      let batch = held ++ base.pending in
      let admitted =
        process_mandate_entries env.mandate_codec env.lib
          (process_key_rotation_entries env.lib env.rotation_codec e batch) batch in
      let cycle = next_cycle e in
      let required = cycle_quorum admitted in
      then_check-Ends env w clock computed base e.st held cycle admitted.st.root required
        (run_prepare_phase env w admitted cycle admitted.st.root batch false required (clock 1))
        (Near-Kept base held admitted _ n (
          run_prepare_phase-Kept env w admitted cycle admitted.st.root batch false required
            (clock 1)))

  with_added-Near :
      (e : Engine) (now : ℕ) (added : List ProvenanceEntry)
      → Near e (with_added e now added).pending_entries (with_added e now added)
        × ((with_added e now added).st ≡ e.st)
  with_added-Near e now [] = ((refl, refl, refl, refl, refl, refl, refl), refl)
  with_added-Near e now (x ∷ xs) = ((refl, refl, refl, refl, refl, refl, refl), refl)

  ingest-Near :
      (e : Engine) (now : ℕ)
      → Near e (ingest e now).pending_entries (ingest e now) × ((ingest e now).st ≡ e.st)
  unfolding ingest
  ingest-Near e now = elim (Option-cases e.gossip) [
    | inl alone ↦ ground arith
    | inr (bus, connected) ↦
        ground
          (arith, with_added-Near e now (fresh (e.pending_entries ++ e.pending) (snapshot bus)))
  ]

  no_length : (es : List ProvenanceEntry) → length es ≡ 0 → es ≡ []
  no_length [] h = refl
  no_length (x ∷ xs) h = absurd (omega (arith, h))

  -- A cycle that commits appends its block to the chain, drops what was submitted here, and goes on
  -- retaining what the block does not hold; the block's entries have proofs from the tree of then. One that is skipped or aborted leaves chain, tree, proofs
  -- and submissions as they were and counts the attempt; an abort retains the whole batch for the
  -- next cycle, and only a cycle with nothing to anchor is skipped. One that panics leaves chain,
  -- proofs, submissions and network state.
  pub run_cycle-Ends :
      (e : Engine)
      → Ends env computed e e.st
          (ingest e (clock 0)).pending_entries
          (run_cycle env w clock computed e)
  unfolding run_cycle sync_key_rotation_state
  run_cycle-Ends e =
      let fed = ingest e (clock 0) in
      let held = fed.pending_entries in
      let near = ingest-Near e (clock 0) in
      let n = near.0 in
      let synced = sync_key_rotation_state fed in
      let all = held ++ fed.pending in
      let same = ap (λ p. held ++ p) n.2 in
      subst (λ t. Ends env computed e t held (run_cycle env w clock computed e)) near.1
        (elim (Bool-cases (nat_beq (length all) 0 && synced.cfg.skip_empty_cycles)) [
          | inl skip ↦
              rw (run_cycle, skip)
                (
                  (
                    n.0,
                    n.1,
                    n.2,
                    ap (λ (s : NetworkState). record s { cycle = add64 s.cycle 1 }) n.3,
                    refl,
                    n.5,
                    n.6,
                  ),
                  refl,
                  sym same ∙ no_length all (ground arith),
                )
          | inr go ↦
              rw (run_cycle, go)
                (subst
                  (λ b. Ends env computed e fed.st held (run_batch env w clock computed synced b))
                  (sym same) (run_batch-Ends e synced held n))
        ])
