-- ===== src/Engine/Signer.antt =====
-- The key that an engine signs its rotations with: RotateKey of pkg/consensus/key_rotation.go.
use gleipnir.Prelude.{
  ℕ, ◌≡◌, refl, sym, ap, ◌∙◌, Bytes, Option, none, some, List, [], ◌∷◌, inl, inr,
}
use gleipnir.Prelude.Int.{ℤ}
use gleipnir.Prelude.Results.{Result, ok, err, Result-cases}
use gleipnir.Identity.Dilithium.{Mldsa}
use gleipnir.Chain.KeyRotation.{KeyRotationEntry, Codec, BuildError, new_entry_with_new_signature}
use gleipnir.Engine.{Engine, OwnNode}
use gleipnir.Engine.Rotations.{rotate_key}
use gleipnir.Engine.Prepare.{Env}
use gleipnir.Engine.Ledger.{perform-Ledger}
use gleipnir.Engine.Operations.{Operation, perform, perform_all}

node_stays : (env : Env) (ops : List Operation) (e : Engine) → (perform_all env e ops).node ≡ e.node
node_stays env [] e = refl
node_stays env (op ∷ ops) e =
    node_stays env ops (perform env e op)
    ∙ elim (perform-Ledger env e op) [ inl s ↦ s.2 | inr g ↦ g.same_node ]

abbrev built : Result BuildError KeyRotationEntry → Option KeyRotationEntry
built (ok r) = some r
built (err x) = none

module _ (lib : Mldsa) (codec : Codec) (new_pk new_vrf_pk sig_new : Bytes) (effective expiry : ℕ)
    (timestamp : ℤ) where
  abbrev own_entry : OwnNode → Option KeyRotationEntry
  own_entry node = built (
      new_entry_with_new_signature lib codec node.uid.root_id node.secret_key new_pk new_vrf_pk
        sig_new effective expiry timestamp)

  rotate_key-own_entry :
      (e : Engine) (now : ℕ)
      → (rotate_key lib codec e new_pk new_vrf_pk sig_new effective expiry timestamp now).1.0
        ≡ own_entry e.node
  unfolding rotate_key
  rotate_key-own_entry e now =
      elim (Result-cases (
        new_entry_with_new_signature lib codec e.node.uid.root_id e.node.secret_key new_pk
          new_vrf_pk sig_new effective expiry timestamp)) [
            | inl (r, made) ↦ rw (rotate_key, made) refl
            | inr (x, failed) ↦ rw (rotate_key, failed) refl
          ]

  -- The entry that RotateKey builds for a new key is the same before and after any calls of methods,
  -- earlier rotations among them: it is signed with the key that the engine had at first.
  rotate_key-perform_all :
      (env : Env) (ops : List Operation) (e : Engine) (now later : ℕ)
      → (rotate_key lib codec
          (perform_all env e ops)
          new_pk
          new_vrf_pk
          sig_new
          effective
          expiry
          timestamp
          later).1.0
        ≡ (rotate_key lib codec e new_pk new_vrf_pk sig_new effective expiry timestamp now).1.0
  rotate_key-perform_all env ops e now later =
      rotate_key-own_entry (perform_all env e ops) later
      ∙ ap own_entry (node_stays env ops e)
      ∙ sym (rotate_key-own_entry e now)
