-- ===== src/Server/Calls.antt =====
-- The calls that change the engine of pkg/server/server.go and mandates.go, in any order, and between
-- them what the engine does by itself.
use gleipnir.Prelude.{
  ℕ, ◌≡◌, refl, sym, ap, ◌∙◌, inl, inr, not, Bytes, Option, none, some, List, [], ◌∷◌, ◌++◌, length,
  nat_beq, if◌then◌else◌, Option-cases, arith,
}
use gleipnir.Prelude.Int.{ℤ}
use gleipnir.Prelude.Results.{Result, ok, err, Result-cases, guard, ◌>>◌}
use gleipnir.Identity.Dilithium.{public_key_size, signature_size}
use gleipnir.Chain.KeyRotation.{KeyRotationEntry}
use gleipnir.Chain.Mandate.{MandateEntry, MandateCodec, verify_mandate_hash}
use gleipnir.Engine.{Engine, EngineError}
use gleipnir.Engine.Rotations.{rotate_key}
use gleipnir.Engine.Bodies.{submit_mandate}
use gleipnir.Engine.Prepare.{Env}
use gleipnir.Engine.Operations.{Operation, enqueues, rotates_own, mandates, perform, perform_all}
use gleipnir.Server.{Server, PbSubmitRequest, submit_hash, authenticate_submit, requested_entry}

pub record KeyRotationRequest : Type 0 where
  pub new_dilithium_public_key : Bytes
  pub new_vrf_public_key : Bytes
  pub signature_new : Bytes
  pub effective_cycle : ℕ
  pub expiry_cycle : ℕ

-- A gRPC status, or an answer: of a rotation the status "rejected" or "pending".
pub data RpcError : Type 0 where
  invalid_argument permission_denied not_found failed_precondition internal : RpcError

-- An entry that was made has the cycles of the request.
pub record KeyRotationResponse : Type 0 where
  pub entry_hash : Option Bytes
  pub error : Option EngineError
  pub effective : ℕ
  pub expiry : ℕ

abbrev hash_of : Option KeyRotationEntry → Option Bytes
hash_of none = none
hash_of (some r) = some r.hash

abbrev error_of : Result EngineError (Unit {0}) → Option EngineError
error_of (ok u) = none
error_of (err x) = some x

abbrev check_sizes : KeyRotationRequest → Result RpcError (Unit {0})
check_sizes req = do
  guard (nat_beq (length req.new_dilithium_public_key) public_key_size) invalid_argument
  guard (nat_beq (length req.new_vrf_public_key) 32) invalid_argument
  guard (nat_beq (length req.signature_new) signature_size) invalid_argument

-- UnmarshalMandateEntry of pkg/chain/block.go, where `decode` is the CBOR decoder.
unfoldable pub unmarshal_mandate_entry :
    MandateCodec → (Bytes → Option MandateEntry) → Bytes → Option MandateEntry
unmarshal_mandate_entry codec decode bs = elim (decode bs) [
  | none ↦ none
  | some m ↦ if not (verify_mandate_hash codec m) then none else some m
]

pub data Event : Type 0 where
  submits_hash : PbSubmitRequest → ℕ → Event
  submits_rotation : KeyRotationRequest → ℤ → ℕ → Event
  submits_mandate : Bytes → ℕ → Event
  engine_does : Operation → Event

module _ (env : Env) (decode : Bytes → Option MandateEntry) where
  -- SubmitKeyRotation, at the time `now` of the clock, where the entry is stamped with `timestamp`.
  unfoldable pub rpc_submit_key_rotation :
      Server → ℤ → ℕ → KeyRotationRequest → Server × Result RpcError KeyRotationResponse
  rpc_submit_key_rotation s timestamp now req = elim (check_sizes req) [
    | err x ↦ (s, err x)
    | ok u ↦
        let done =
          rotate_key env.lib env.rotation_codec s.engine req.new_dilithium_public_key
            req.new_vrf_public_key req.signature_new req.effective_cycle req.expiry_cycle timestamp
            now in
        (
          record s { engine = done.0 },
          ok (record {
            entry_hash = hash_of done.1.0;
            error = error_of done.1.1;
            effective = req.effective_cycle;
            expiry = req.expiry_cycle;
          }),
        )
  ]

  -- SubmitMandate, with the identifier and the version of the mandate that was accepted.
  unfoldable pub rpc_submit_mandate : Server → ℕ → Bytes → Server × Result RpcError (Bytes × ℕ)
  rpc_submit_mandate s now bs = elim (unmarshal_mandate_entry env.mandate_codec decode bs) [
    | none ↦ (s, err invalid_argument)
    | some m ↦
        let done = submit_mandate env.mandate_codec env.lib s.engine (some m) now in
        let s' = record s { engine = done.0 } in
        elim done.1 [ err x ↦ (s', err permission_denied) | ok u ↦ (s', ok (m.id, m.version)) ]
  ]

  unfoldable pub serve : Server → Event → Server
  serve s (submits_hash req now) = (submit_hash env.lib s now req).0
  serve s (submits_rotation req timestamp now) = (rpc_submit_key_rotation s timestamp now req).0
  serve s (submits_mandate bs now) = (rpc_submit_mandate s now bs).0
  serve s (engine_does op) = record s { engine = perform env s.engine op }

  abbrev pub serve_all : Server → List Event → Server
  serve_all s [] = s
  serve_all s (ev ∷ evs) = serve_all (serve s ev) evs

  -- What a server has become: its keys are the same, and its engine did some operations.
  pub record Served (s s' : Server) : Type 0 where
    pub same_keys : s'.registry ≡ s.registry
    pub operations : List Operation
    pub done : s'.engine ≡ perform_all env s.engine operations

  submit_hash-Served :
      (s : Server) (now : ℕ) (req : PbSubmitRequest) → Served s (submit_hash env.lib s now req).0
  unfolding submit_hash perform
  submit_hash-Served s now req = elim (Result-cases (authenticate_submit env.lib s.registry req)) [
    | inr (x, bad) ↦ record { same_keys = ground arith; operations = []; done = ground arith }
    | inl (u, good) ↦ record {
      same_keys = ground arith;
      operations = enqueues (requested_entry req) now ∷ [];
      done = ground arith;
    }
  ]

  rpc_submit_key_rotation-Served :
      (s : Server) (timestamp : ℤ) (now : ℕ) (req : KeyRotationRequest)
      → Served s (rpc_submit_key_rotation s timestamp now req).0
  unfolding rpc_submit_key_rotation perform
  rpc_submit_key_rotation-Served s timestamp now req = elim (Result-cases (check_sizes req)) [
    | inr (x, bad) ↦ record { same_keys = ground arith; operations = []; done = ground arith }
    | inl (u, good) ↦ record {
      same_keys = ground arith;
      operations =
          rotates_own req.new_dilithium_public_key req.new_vrf_public_key req.signature_new
            req.effective_cycle req.expiry_cycle timestamp now
          ∷ [];
      done = ground arith;
    }
  ]

  rpc_submit_mandate-Served :
      (s : Server) (now : ℕ) (bs : Bytes) → Served s (rpc_submit_mandate s now bs).0
  unfolding rpc_submit_mandate perform
  rpc_submit_mandate-Served s now bs =
      elim (Option-cases (unmarshal_mandate_entry env.mandate_codec decode bs)) [
        | inl garbled ↦ record { same_keys = ground arith; operations = []; done = ground arith }
        | inr (m, read) ↦ record {
          same_keys = ground arith;
          operations = mandates (some m) now ∷ [];
          done = ground arith;
        }
      ]

  serve-Served : (s : Server) (ev : Event) → Served s (serve s ev)
  unfolding serve
  serve-Served s (submits_hash req now) = submit_hash-Served s now req
  serve-Served s (submits_rotation req timestamp now) =
      rpc_submit_key_rotation-Served s timestamp now req
  serve-Served s (submits_mandate bs now) = rpc_submit_mandate-Served s now bs
  serve-Served s (engine_does op) = record { same_keys = refl; operations = op ∷ []; done = refl }

  perform_all-append :
      (e : Engine) (ops more : List Operation)
      → perform_all env e (ops ++ more) ≡ perform_all env (perform_all env e ops) more
  perform_all-append e [] more = refl
  perform_all-append e (op ∷ ops) more = perform_all-append (perform env e op) ops more

  pub serve_all-Served : (evs : List Event) (s : Server) → Served s (serve_all s evs)
  serve_all-Served [] s = record { same_keys = refl; operations = []; done = refl }
  serve_all-Served (ev ∷ evs) s =
      let first = serve-Served s ev in
      let rest = serve_all-Served evs (serve s ev) in
      record {
        same_keys = rest.same_keys ∙ first.same_keys;
        operations = first.operations ++ rest.operations;
        done =
            rest.done
            ∙ ap (λ e. perform_all env e rest.operations) first.done
            ∙ sym (perform_all-append s.engine first.operations rest.operations);
      }
