-- ===== src/Engine/Ledger.antt =====
-- What one call of a method does to the chain and the proofs.
use gleipnir.Prelude.{
  or_nil, ℕ, ◌-◌, ◌≡◌, refl, ◌∙◌, ◌⊎◌, Bytes, bytes_eq, Option, none, some, List, [], ◌∷◌, ◌++◌,
  arith, Option-cases, inl, inr, length,
}
use gleipnir.Prelude.Results.{Result-cases}
use gleipnir.Chain.{Block, ProvenanceEntry}
use gleipnir.Prelude.Int.{ℤ}
use gleipnir.Chain.KeyRotation.{KeyRotationEntry, new_entry_with_new_signature}
use gleipnir.Chain.Mandate.{MandateEntry}
use gleipnir.Validation.KeyRotation.{validate}
use gleipnir.Validation.Mandates.{validate_mandate_authority, validate_entry_against_mandates}
use gleipnir.Smt.{SparseMerkleTree}
use gleipnir.Engine.{
  stop_engine, Engine, check_entry, api_limits_of, set_api_limits, set_quorum_config,
}
use gleipnir.Engine.Submission.{enqueue, submit, allows, add_pending}
use gleipnir.Engine.Rotations.{
  sync_key_rotation_state, submit_key_rotation, rotate_key, record_rotation_body, keep_body,
  rotation_anchor,
}
use gleipnir.Engine.Bodies.{
  submit_mandate, record_mandate_body, keep_mandate, mandate_anchor, mandate_authority_lookup,
}
use gleipnir.Engine.Prepare.{Env, own_id}
use gleipnir.Prelude.{ap, ◌∙◌}
use gleipnir.Prelude.Results.{ok}
use gleipnir.Engine.Transition.{apply, next_nodes}
use gleipnir.Engine.{NetworkState, Config, Floats}
use gleipnir.Engine.Cycle.{Outcome, skipped, aborted, panicked, committed, anchor_entries}
use gleipnir.Engine.Atomic.{Ends, run_cycle-Ends}
use gleipnir.Engine.Operations.{
  Operation, enqueues, submits, rotates, rotates_own, records_rotation, syncs, mandates,
  records_mandate, sets_limits, sets_quorum, stops, cycles, perform,
}

-- Chain, proofs, settings and the nodes' status are the same, or one block is added with the proofs of
-- its entries, and one state transition with this node's own heartbeat.
abbrev pub Same : Engine → Engine → Type 0
Same e e' =
    (e'.blocks ≡ e.blocks)
    × (e'.anchored ≡ e.anchored)
    × (e'.node ≡ e.node)
    × (e'.cfg ≡ e.cfg)
    × (e'.state.nodes ≡ e.state.nodes)

pub record Grown (env : Env) (e e' : Engine) : Type 0 where
  pub block : Block
  pub longer : e'.blocks ≡ e.blocks ++ (block ∷ [])
  pub proved :
      e'.anchored
      ≡ anchor_entries e'.st
          (length e'.blocks - 1)
          block.timestamp
          e.anchored
          (or_nil block.anchored)
  pub same_node : e'.node ≡ e.node
  pub same_cfg : e'.cfg ≡ e.cfg
  pub beaten : e'.state.nodes ≡ next_nodes env.floats e.cfg.decay_rate (own_id e ∷ []) e.state.nodes

abbrev pub Ledger : Env → Engine → Engine → Type 0
Ledger env e e' = Same e e' ⊎ Grown env e e'

allows-Same : (e : Engine) (id : Bytes) (now : ℕ) → Same e (allows e id now).0
unfolding allows
allows-Same e id now = elim (Option-cases e.rate_limiter) [
  | inl free ↦ ground arith
  | inr (sl, limited) ↦ ground arith
]

enqueue-Same : (e : Engine) (entry : ProvenanceEntry) (now : ℕ) → Same e (enqueue e entry now).0
unfolding enqueue add_pending
enqueue-Same e entry now =
    let asked = allows-Same e entry.submitter now in
    elim (Result-cases (check_entry entry.hash entry.submitter entry.label (api_limits_of e))) [
      | inr (x, bad) ↦ ground arith
      | inl (u, good) ↦
          elim (Result-cases
            (validate_entry_against_mandates e.mandate_resolver (some entry) entry.timestamp)) [
              | inr (x, bad) ↦ ground arith
              | inl (u', meets) ↦ ground arith
            ]
    ]

submit-Same :
    (e : Engine) (hash submitter label : Bytes) (now : ℕ)
    → Same e (submit e hash submitter label now).0
unfolding submit add_pending
submit-Same e hash submitter label now =
    let asked = allows-Same e submitter now in
    elim (Result-cases (check_entry hash submitter label (api_limits_of e))) [
      | inr (x, bad) ↦ ground arith
      | inl (u, good) ↦ ground arith
    ]

Same-trans : (a b c : Engine) → Same a b → Same b c → Same a c
Same-trans a b c h k = (k.0 ∙ h.0, k.1 ∙ h.1, k.2 ∙ h.2, k.3 ∙ h.3, k.4 ∙ h.4)

module _ (env : Env) where
  submit_key_rotation-Same :
      (e : Engine) (r : Option KeyRotationEntry) (now : ℕ)
      → Same e (submit_key_rotation env.lib env.rotation_codec e r now).0
  unfolding submit_key_rotation sync_key_rotation_state keep_body
  submit_key_rotation-Same e none now = (refl, refl, refl, refl, refl)
  submit_key_rotation-Same e (some r) now =
      let synced = sync_key_rotation_state e in
      let queued = enqueue-Same (keep_body synced r) (rotation_anchor r) now in
      elim (Result-cases (validate env.lib env.rotation_codec synced.rotations (some r))) [
        | inr (x, bad) ↦ ground arith
        | inl (u, good) ↦ ground arith
      ]

  record_rotation_body-Same :
      (e : Engine) (r : Option KeyRotationEntry)
      → Same e (record_rotation_body env.lib env.rotation_codec e r).0
  unfolding record_rotation_body keep_body
  record_rotation_body-Same e none = (refl, refl, refl, refl, refl)
  record_rotation_body-Same e (some r) = ground arith

  submit_mandate-Same :
      (e : Engine) (m : Option MandateEntry) (now : ℕ)
      → Same e (submit_mandate env.mandate_codec env.lib e m now).0
  unfolding submit_mandate keep_mandate
  submit_mandate-Same e none now = (refl, refl, refl, refl, refl)
  submit_mandate-Same e (some m) now =
      let queued =
        enqueue-Same (keep_mandate env.mandate_codec env.lib e m) (mandate_anchor m) now in
      elim (Result-cases (
        validate_mandate_authority env.mandate_codec env.lib (some m)
          (some (mandate_authority_lookup e)))) [
            | inr (x, bad) ↦ ground arith
            | inl (u, good) ↦ ground arith
          ]

  record_mandate_body-Same :
      (e : Engine) (m : Option MandateEntry)
      → Same e (record_mandate_body env.mandate_codec env.lib e m).0
  unfolding record_mandate_body keep_mandate
  record_mandate_body-Same e none = (refl, refl, refl, refl, refl)
  record_mandate_body-Same e (some m) =
      elim (Result-cases (
        validate_mandate_authority env.mandate_codec env.lib (some m)
          (some (mandate_authority_lookup e)))) [
            | inr (x, bad) ↦ ground arith
            | inl (u, good) ↦ ground arith
          ]

apply-nodes :
    (fl : Floats) (root : NetworkState → Bytes) (s : NetworkState) (prev : Bytes)
    (hearts : List Bytes) (cfg : Config) (computed : ℕ) (next : NetworkState)
    → apply fl root s prev hearts cfg computed ≡ ok next
    → next.nodes ≡ next_nodes fl cfg.decay_rate hearts s.nodes
unfolding apply
apply-nodes fl root s prev hearts cfg computed next h = ground arith

Ends-Ledger :
    (env : Env) (computed : ℕ) (e : Engine) (tree : SparseMerkleTree) (held : List ProvenanceEntry)
    (p : Engine × Outcome)
    → Ends env computed e tree held p
    → Ledger env e p.0
Ends-Ledger env computed e tree held (e', skipped) h =
    inl (h.0.0, h.0.1, h.0.5, h.0.6, ap (λ (s : NetworkState). s.nodes) h.0.3)
Ends-Ledger env computed e tree held (e', aborted) h =
    inl (h.0.0, h.0.1, h.0.5, h.0.6, ap (λ (s : NetworkState). s.nodes) h.0.3)
Ends-Ledger env computed e tree held (e', panicked) h =
    inl (h.0, h.1, h.5, h.6, ap (λ (s : NetworkState). s.nodes) h.3)
Ends-Ledger env computed e tree held (e', committed block) h = inr (record {
  block = block;
  longer = h.0;
  proved = h.3;
  same_node = h.4;
  same_cfg = h.5;
  beaten =
      apply-nodes env.floats env.supervision_root e.state e.state.supervision_root (own_id e ∷ [])
        e.cfg computed e'.state h.6;
})

rotate_key-Same :
    (env : Env) (e : Engine) (new_pk new_vrf_pk sig_new : Bytes) (effective expiry : ℕ)
    (timestamp : ℤ) (now : ℕ)
    → Same e
        (rotate_key env.lib env.rotation_codec e new_pk new_vrf_pk sig_new effective expiry
          timestamp now).0
unfolding rotate_key
rotate_key-Same env e new_pk new_vrf_pk sig_new effective expiry timestamp now =
    elim (Result-cases (
      new_entry_with_new_signature env.lib env.rotation_codec e.node.uid.root_id e.node.secret_key
        new_pk new_vrf_pk sig_new effective expiry timestamp)) [
          | inl (r, built) ↦ rw (rotate_key, built) (submit_key_rotation-Same env e (some r) now)
          | inr (x, failed) ↦ rw (rotate_key, failed) (refl, refl, refl, refl, refl)
        ]

pub perform-Ledger : (env : Env) (e : Engine) (op : Operation) → Ledger env e (perform env e op)
unfolding perform stop_engine sync_key_rotation_state set_api_limits set_quorum_config
perform-Ledger env e (enqueues entry now) = inl (enqueue-Same e entry now)
perform-Ledger env e (submits hash submitter label now) =
    inl (submit-Same e hash submitter label now)
perform-Ledger env e (rotates r now) = inl (submit_key_rotation-Same env e r now)
perform-Ledger env e (rotates_own new_pk new_vrf_pk sig_new effective expiry timestamp now) =
    inl (rotate_key-Same env e new_pk new_vrf_pk sig_new effective expiry timestamp now)
perform-Ledger env e (records_rotation r) = inl (record_rotation_body-Same env e r)
perform-Ledger env e syncs = inl (refl, refl, refl, refl, refl)
perform-Ledger env e (mandates m now) = inl (submit_mandate-Same env e m now)
perform-Ledger env e (records_mandate m) = inl (record_mandate_body-Same env e m)
perform-Ledger env e (sets_limits cfg) = inl (refl, refl, refl, refl, refl)
perform-Ledger env e (sets_quorum q) = inl (ground arith)
perform-Ledger env e stops = inl (refl, refl, refl, refl, refl)
perform-Ledger env e (cycles w clock computed) =
    Ends-Ledger env computed e e.st _ _ (run_cycle-Ends env w clock computed e)
