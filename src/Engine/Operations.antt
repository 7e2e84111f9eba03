-- ===== src/Engine/Operations.antt =====
-- Methods of the engine that change its state, in any order: those of pkg/consensus/engine.go, api.go,
-- key_rotation.go and mandates.go, but for SetStorage, which may replace chain, proofs and state by
-- what a storage gives, and for RunVRFPhase and the phases of a cycle called by themselves.
use gleipnir.Prelude.{ℕ, Bytes, Option, List, [], ◌∷◌}
use gleipnir.Prelude.Int.{ℤ}
use gleipnir.Chain.{ProvenanceEntry, QuorumConfig}
use gleipnir.Chain.KeyRotation.{KeyRotationEntry}
use gleipnir.Chain.Mandate.{MandateEntry}
use gleipnir.Engine.{stop_engine, Engine, ApiLimits, set_api_limits, set_quorum_config}
use gleipnir.Engine.Submission.{enqueue, submit}
use gleipnir.Engine.Rotations.{
  sync_key_rotation_state, submit_key_rotation, rotate_key, record_rotation_body,
}
use gleipnir.Engine.Bodies.{submit_mandate, record_mandate_body}
use gleipnir.Engine.Prepare.{Env, Waits}
use gleipnir.Engine.Cycle.{run_cycle}

-- A call, with the time of the clock, and for a cycle what happens on the bus meanwhile.
pub data Operation : Type 0 where
  enqueues : ProvenanceEntry → ℕ → Operation
  submits : Bytes → Bytes → Bytes → ℕ → Operation
  rotates : Option KeyRotationEntry → ℕ → Operation
  rotates_own : Bytes → Bytes → Bytes → ℕ → ℕ → ℤ → ℕ → Operation
  records_rotation : Option KeyRotationEntry → Operation
  syncs : Operation
  mandates : Option MandateEntry → ℕ → Operation
  records_mandate : Option MandateEntry → Operation
  sets_limits : ApiLimits → Operation
  sets_quorum : QuorumConfig → Operation
  stops : Operation
  cycles : Waits → (ℕ → ℕ) → ℕ → Operation

unfoldable pub perform : Env → Engine → Operation → Engine
perform env e (enqueues entry now) = (enqueue e entry now).0
perform env e (submits hash submitter label now) = (submit e hash submitter label now).0
perform env e (rotates r now) = (submit_key_rotation env.lib env.rotation_codec e r now).0
perform env e (rotates_own new_pk new_vrf_pk sig_new effective expiry timestamp now) =
    (rotate_key env.lib env.rotation_codec e new_pk new_vrf_pk sig_new effective expiry timestamp
      now).0
perform env e (records_rotation r) = (record_rotation_body env.lib env.rotation_codec e r).0
perform env e syncs = sync_key_rotation_state e
perform env e (mandates m now) = (submit_mandate env.mandate_codec env.lib e m now).0
perform env e (records_mandate m) = (record_mandate_body env.mandate_codec env.lib e m).0
perform env e (sets_limits cfg) = set_api_limits e cfg
perform env e (sets_quorum q) = set_quorum_config e q
perform env e stops = stop_engine e
perform env e (cycles w clock computed) = (run_cycle env w clock computed e).0

abbrev pub perform_all : Env → Engine → List Operation → Engine
perform_all env e [] = e
perform_all env e (op ∷ ops) = perform_all env (perform env e op) ops
