-- ===== src/Server/Options.antt =====
-- NewServer of pkg/server/server.go: what a server that was started can be asked from then on.
use gleipnir.Prelude.{
  is_empty, ℕ, ◌≡◌, refl, sym, ◌∙◌, subst, inl, inr, true, Bytes, bytes_eq, bytes_beq_sound, Option,
  none, some, List, [], ◌∷◌, Bool-cases, Option-cases, arith, Has, nat_beq, length, ◌==◌,
}
use gleipnir.Prelude.Table.{lookup, insert}
use gleipnir.Prelude.Results.{ok, err, Result-cases}
use gleipnir.Identity.Dilithium.{Mldsa, verify_dilithium, public_key_size}
use gleipnir.Identity.Registry.{
  Registry, register_identity, find_key, verify_signature, canonical_payload,
}
use gleipnir.Chain.Mandate.{MandateEntry}
use gleipnir.Consensus.Peer.{peer_id, hex_encode}
use gleipnir.Engine.{Engine, AnchorProof, lookup_hash}
use gleipnir.Engine.Prepare.{Env}
use gleipnir.Engine.Start.{new_engine, started-ProofsInBlocks}
use gleipnir.Engine.History.{InBlock, ProofsInBlocks, perform_all-ProofsInBlocks}
use gleipnir.Transport.{padded}
use gleipnir.Server.{
  Server, Uid, Setup, ServerOption, with_peers, with_gossip, with_allow_simulated_identities,
  with_key, with_cycle_interval, StartError, nil_pointer, apply_option, apply_options,
  default_setup, own_registry, own_node, build_engine, new_server, PbSubmitRequest,
  authenticate_submit, submit_hash, rpc_verify_hash,
}
use gleipnir.Server.Calls.{Event, serve_all, serve_all-Served}

only_nil_pointer :
    (s : Setup) (opt : ServerOption) (x : StartError) → apply_option s opt ≡ err x → x ≡ nil_pointer
unfolding apply_option
only_nil_pointer s (with_peers peers) x h = absurd (ground arith)
only_nil_pointer s (with_gossip gossip) x h = absurd (ground arith)
only_nil_pointer s (with_allow_simulated_identities allow) x h = absurd (ground arith)
only_nil_pointer s (with_key uid) x h = ground arith
only_nil_pointer s (with_cycle_interval d) x h = absurd (ground arith)

-- A call of WithKey among the options panics, whatever comes before it.
apply_options-with_key :
    (uid : Uid) (opts : List ServerOption) (s : Setup)
    → Has (with_key uid) opts
    → apply_options s opts ≡ err nil_pointer
unfolding apply_options apply_option
apply_options-with_key uid [] s h = elim h [ ]
apply_options-with_key uid (opt ∷ opts) s (inl here) = rw (sym here) refl
apply_options-with_key uid (opt ∷ opts) s (inr later) = elim (Result-cases (apply_option s opt)) [
  | inl (s', applied) ↦ rw applied (apply_options-with_key uid opts s' later)
  | inr (x, failed) ↦ rw (failed, only_nil_pointer s opt x failed) refl
]

pub new_server-with_key :
    (env : Env) (node_id : Bytes) (uid other : Uid) (opts : List ServerOption)
    → Has (with_key other) opts
    → new_server env node_id uid opts ≡ err nil_pointer
unfolding new_server
new_server-with_key env node_id uid other opts h =
    rw (apply_options-with_key other opts default_setup h) refl

-- An answer of VerifyHash names a block that holds the hash.
abbrev pub Backed : Engine → Bytes → Option AnchorProof → Type 0
Backed e hash none = Unit {0}
Backed e hash (some proof) = InBlock e (padded 32 hash) proof

lookup_hash-Backed :
    (e : Engine) (hash : Bytes) → ProofsInBlocks e → Backed e hash (lookup_hash e (padded 32 hash))
lookup_hash-Backed e hash inv = elim (Option-cases (lookup_hash e (padded 32 hash))) [
  | inl missing ↦ rw missing tt
  | inr (proof, found) ↦ rw found (inv (padded 32 hash) proof found)
]

-- What an accepted submission was signed with.
record SignedBy (lib : Mldsa) (keys : Registry) (req : PbSubmitRequest) : Type 0 where
  key : Bytes
  known : find_key keys (hex_encode req.submitter) ≡ ok key
  signed :
      verify_dilithium lib key
        (canonical_payload req.hash req.submitter req.timestamp req.label)
        req.signature
      ≡ true

authenticate_submit-SignedBy :
    (lib : Mldsa) (keys : Registry) (req : PbSubmitRequest)
    → authenticate_submit lib keys req ≡ ok tt
    → SignedBy lib keys req
unfolding authenticate_submit verify_signature
authenticate_submit-SignedBy lib keys req h =
    elim (Result-cases (find_key keys (hex_encode req.submitter))) [
      | inr (x, unknown) ↦ absurd (ground arith)
      | inl (key, known) ↦ record { key = key; known = known; signed = ground arith }
    ]

submit_hash-SignedBy :
    (lib : Mldsa) (s : Server) (now : ℕ) (req : PbSubmitRequest)
    → (submit_hash lib s now req).1.accepted ≡ true
    → SignedBy lib s.registry req
unfolding submit_hash
submit_hash-SignedBy lib s now req accepted =
    elim (Result-cases (authenticate_submit lib s.registry req)) [
      | inr (x, bad) ↦ absurd (ground arith)
      | inl (tt, good) ↦ authenticate_submit-SignedBy lib s.registry req good
    ]

module _ (env : Env) (node_id : Bytes) (uid : Uid) where
  -- What NewServer has built.
  record Built (s : Server) : Type 0 where
    own_keys : s.registry ≡ own_registry uid
    setup : Setup
    own_engine : s.engine ≡ build_engine env node_id uid setup

  new_server-Built :
      (opts : List ServerOption) (s : Server) → new_server env node_id uid opts ≡ ok s → Built s
  unfolding new_server
  new_server-Built opts s h = elim (Result-cases (apply_options default_setup opts)) [
    | inl (setup, applied) ↦ record {
      own_keys = ground arith;
      setup = setup;
      own_engine = ground arith;
    }
    | inr (x, failed) ↦ absurd (ground arith)
  ]

  build_engine-ProofsInBlocks :
      (setup : Setup) → ProofsInBlocks (build_engine env node_id uid setup)
  unfolding build_engine lookup_hash lookup new_engine
  build_engine-ProofsInBlocks setup = elim (Bool-cases (is_empty setup.peers)) [
    | inl alone ↦ rw (build_engine, alone) (λ h p found. absurd (ground arith))
    | inr several ↦
        rw (build_engine, several)
          (started-ProofsInBlocks env (own_node node_id uid) setup.gossip (some setup.peers) [])
  ]

  find_key-own :
      (id key : Bytes)
      → find_key (own_registry uid) id ≡ ok key
      → (id ≡ peer_id uid.shown) × (key ≡ uid.shown.public_key)
  unfolding find_key own_registry register_identity lookup insert
  find_key-own id key h =
      let own = length uid.shown.public_key in
      elim (Bool-cases (nat_beq own public_key_size)) [
        | inr odd ↦ absurd (ground arith)
        | inl sized ↦ elim (Bool-cases (peer_id uid.shown == id)) [
          | inl same ↦ (sym (bytes_beq_sound (peer_id uid.shown) id same), ground arith)
          | inr other ↦ absurd (ground arith)
        ]
      ]

  -- After any calls and whatever the engine has done since it was started, the hash of a submission
  -- that the server accepts was signed with the server's own key, in the name of its own root: no
  -- other submitter can be registered.
  pub accepted-is_own :
      (decode : Bytes → Option MandateEntry) (opts : List ServerOption) (evs : List Event)
      (s : Server) (now : ℕ) (req : PbSubmitRequest)
      → new_server env node_id uid opts ≡ ok s
      → (submit_hash env.lib (serve_all env decode s evs) now req).1.accepted ≡ true
      → (hex_encode req.submitter ≡ peer_id uid.shown)
        × (verify_dilithium env.lib uid.shown.public_key
              (canonical_payload req.hash req.submitter req.timestamp req.label)
              req.signature
            ≡ true)
  accepted-is_own decode opts evs s now req h accepted =
      let now_s = serve_all env decode s evs in
      let by = submit_hash-SignedBy env.lib now_s now req accepted in
      let keys =
        (serve_all-Served env decode evs s).same_keys ∙ (new_server-Built opts s h).own_keys in
      let own =
        find_key-own (hex_encode req.submitter) by.key
          (subst (λ r. find_key r (hex_encode req.submitter) ≡ ok by.key) keys by.known) in
      (
        own.0,
        subst
            (λ k.
              verify_dilithium env.lib k
                (canonical_payload req.hash req.submitter req.timestamp req.label) req.signature
              ≡ true)
            own.1 by.signed,
      )

  -- After any calls and whatever the engine has done since it was started, a proof that VerifyHash
  -- answers with names a block of the engine's chain that holds an entry of the hash that was asked
  -- for, cut or filled with zeroes to 32 bytes.
  pub rpc_verify_hash-Backed :
      (decode : Bytes → Option MandateEntry) (opts : List ServerOption) (evs : List Event)
      (s : Server) (hash : Bytes)
      → new_server env node_id uid opts ≡ ok s
      → Backed
          (serve_all env decode s evs).engine
          hash
          (rpc_verify_hash (serve_all env decode s evs) hash)
  unfolding rpc_verify_hash
  rpc_verify_hash-Backed decode opts evs s hash h =
      let built = new_server-Built opts s h in
      let served = serve_all-Served env decode evs s in
      let fresh =
        subst ProofsInBlocks (sym built.own_engine) (build_engine-ProofsInBlocks built.setup) in
      let inv =
        subst ProofsInBlocks (sym served.done)
          (perform_all-ProofsInBlocks env served.operations s.engine fresh) in
      lookup_hash-Backed (serve_all env decode s evs).engine hash inv
