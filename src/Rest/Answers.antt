-- ===== src/Rest/Answers.antt =====
-- What the answers of pkg/rest/server.go promise of the chain.
use gleipnir.Prelude.{
  is_empty, ℕ, ◌≡◌, refl, sym, subst, inl, inr, Bool-cases, Option-cases, Bytes, bytes_eq, ◌==◌,
  codes, some, List, [], ◌∷◌, length, nat_beq, arith,
}
use gleipnir.Prelude.Results.{ok, Result-cases}
use gleipnir.Identity.Dilithium.{Mldsa}
use gleipnir.Chain.{ProvenanceEntry}
use gleipnir.Engine.{Engine, Floats, lookup_hash, get_block}
use gleipnir.Engine.Submission.{enqueue}
use gleipnir.Engine.Prepare.{Env}
use gleipnir.Engine.Operations.{Operation, enqueues, perform, perform_all}
use gleipnir.Engine.History.{InBlock, ProofsInBlocks, perform_all-ProofsInBlocks}
use gleipnir.Transport.{padded}
use gleipnir.Rest.{
  Request, malformed, unknown_field, Web, Answer, anchored, RestServer, Moment, authenticate,
  with_auth, optional_auth, allow, read_submit, await_anchor, handle_submit, handle_verify,
  handle_get_block, handle_health, handle_state_root, handler, to_submit, to_health, to_state_root,
  to_verify, to_block,
}

-- An answer with a proof names a block of the engine's chain, and the hash that was asked for, in
-- hexadecimal, is in that block.
abbrev pub Honest : Web → RestServer → Answer → Type 0
Honest web s (anchored code text proof) =
    (bytes : Bytes) × (web.decode_hex text ≡ some bytes) × InBlock s.engine (padded 32 bytes) proof
Honest web s other = Unit {0}

module _ (web : Web) where
  await_anchor-Honest :
      (meanwhile : Engine → Engine) (s : RestServer) (text h bytes : Bytes)
      → web.decode_hex text ≡ some bytes
      → h ≡ padded 32 bytes
      → ProofsInBlocks (meanwhile s.engine)
      → Honest web (await_anchor meanwhile s text h).0 (await_anchor meanwhile s text h).1
  unfolding await_anchor
  await_anchor-Honest meanwhile s text h bytes hex same inv =
      elim (Option-cases (lookup_hash (meanwhile s.engine) h)) [
        | inl late ↦ rw (await_anchor, late) tt
        | inr (proof, found) ↦
            rw (await_anchor, found)
              (
                bytes,
                hex,
                subst (λ x. InBlock (meanwhile s.engine) x proof) same (inv h proof found),
              )
      ]

  handle_verify-Honest :
      (text : Bytes) (s : RestServer)
      → ProofsInBlocks s.engine
      → Honest web (handle_verify web text s).0 (handle_verify web text s).1
  unfolding handle_verify
  handle_verify-Honest text s inv = elim (Bool-cases (nat_beq (length text) 64)) [
    | inr odd ↦ rw (handle_verify, odd) tt
    | inl size ↦ elim (Option-cases (web.decode_hex text)) [
      | inl garbled ↦ rw (handle_verify, size, garbled) tt
      | inr (bytes, hex) ↦ elim (Option-cases (lookup_hash s.engine (padded 32 bytes))) [
        | inl missing ↦ rw (handle_verify, size, hex, missing) tt
        | inr (proof, found) ↦
            rw (handle_verify, size, hex, found) (bytes, hex, inv (padded 32 bytes) proof found)
      ]
    ]
  ]

  -- What read_submit lets through: the hash is that of the text.
  read_submit-hash :
      (nanos : ℕ) (body text : Bytes) (entry : ProvenanceEntry)
      → read_submit web nanos body ≡ ok (text, entry)
      → (bytes : Bytes) × (web.decode_hex text ≡ some bytes) × (entry.hash ≡ padded 32 bytes)
  unfolding read_submit
  read_submit-hash nanos body text entry h = elim (Result-cases (web.decode_submit body)) [
    | inr (malformed, bad) ↦ absurd (ground arith)
    | inr (unknown_field, bad) ↦ absurd (ground arith)
    | inl (req, good) ↦ elim (Option-cases (web.decode_hex req.hash)) [
      | inl garbled ↦ absurd (ground arith)
      | inr (bytes, hex) ↦ (bytes, ground arith, ground arith)
    ]
  ]

  enqueue-ProofsInBlocks :
      (env : Env) (e : Engine) (entry : ProvenanceEntry) (nanos : ℕ)
      → ProofsInBlocks e
      → ProofsInBlocks (enqueue e entry nanos).0
  unfolding perform
  enqueue-ProofsInBlocks env e entry nanos inv =
      perform_all-ProofsInBlocks env (enqueues entry nanos ∷ []) e inv

  handle_submit-Honest :
      (env : Env) (ops : List Operation) (nanos : ℕ) (r : Request) (s : RestServer)
      → ProofsInBlocks s.engine
      → Honest web
          (handle_submit web nanos (λ e. perform_all env e ops) r s).0
          (handle_submit web nanos (λ e. perform_all env e ops) r s).1
  unfolding handle_submit
  handle_submit-Honest env ops nanos r s inv = elim (Result-cases (read_submit web nanos r.body)) [
    | inr (a, bad) ↦ rw (handle_submit, bad) tt
    | inl ((text, entry), good) ↦
        let queued = enqueue s.engine entry nanos in
        elim (Result-cases queued.1) [
          | inr (x, full) ↦ rw (handle_submit, good, full) tt
          | inl (u, fine) ↦
              let (bytes, hex, same) = read_submit-hash nanos r.body text entry good in
              rw (handle_submit, good, fine)
                (await_anchor-Honest (λ e. perform_all env e ops) (record s { engine = queued.0 })
                  text entry.hash bytes hex same
                  (perform_all-ProofsInBlocks env ops queued.0
                    (enqueue-ProofsInBlocks env s.engine entry nanos inv)))
        ]
  ]

module _ (web : Web) (lib : Mldsa) where
  with_auth-Honest :
      (next : RestServer → RestServer × Answer) (s : RestServer) (now : ℕ) (r : Request)
      → ProofsInBlocks s.engine
      → ((s' : RestServer) → s'.engine ≡ s.engine → Honest web (next s').0 (next s').1)
      → Honest web (with_auth web lib next s now r).0 (with_auth web lib next s now r).1
  unfolding with_auth
  with_auth-Honest next s now r inv h = elim (Result-cases (authenticate web lib s now r)) [
    | inr (x, no_auth) ↦ rw (with_auth, no_auth) tt
    | inl (root, a) ↦
        let asked = allow s.limiter root now in
        elim (Bool-cases asked.1) [
          | inl granted ↦ rw (with_auth, a, granted) (h (record s { limiter = asked.0 }) refl)
          | inr limited ↦ rw (with_auth, a, limited) tt
        ]
  ]

  optional_auth-Honest :
      (next : RestServer → RestServer × Answer) (s : RestServer) (now : ℕ) (r : Request)
      → Honest web (next s).0 (next s).1
      → Honest web (optional_auth web lib next s now r).0 (optional_auth web lib next s now r).1
  unfolding optional_auth
  optional_auth-Honest next s now r h = elim (Bool-cases (is_empty r.root_id)) [
    | inl anonymous ↦ rw (optional_auth, anonymous) h
    | inr signed ↦ elim (Result-cases (authenticate web lib s now r)) [
      | inl (root, a) ↦ rw (optional_auth, signed, a) h
      | inr (x, no_auth) ↦ rw (optional_auth, signed, no_auth) tt
    ]
  ]

  handle_get_block-Honest :
      (text : Bytes) (s : RestServer)
      → Honest web (handle_get_block web text s).0 (handle_get_block web text s).1
  unfolding handle_get_block
  handle_get_block-Honest text s = elim (Option-cases (web.parse_uint text)) [
    | inl garbled ↦ rw (handle_get_block, garbled) tt
    | inr (index, parsed) ↦ elim (Option-cases (get_block s.engine index)) [
      | inl missing ↦ rw (handle_get_block, parsed, missing) tt
      | inr (b, found) ↦ rw (handle_get_block, parsed, found) tt
    ]
  ]

  moved : (e e' : Engine) → e' ≡ e → ProofsInBlocks e → ProofsInBlocks e'
  moved e e' same inv = subst ProofsInBlocks (sym same) inv

  -- Whatever the request and the route, an answer with a proof is honest, where the engine's proofs
  -- name blocks of its chain, and whatever is called on the engine while the request waits.
  pub handler-Honest :
      (floats : Floats) (env : Env) (ops : List Operation) (now nanos : ℕ) (s : RestServer)
      (r : Request)
      → ProofsInBlocks s.engine
      → let m : Moment = record {
        now = now;
        nanos = nanos;
        meanwhile = λ e. perform_all env e ops;
      } in
        Honest web (handler web lib floats m s r).0 (handler web lib floats m s r).1
  unfolding handler optional_auth handle_health handle_state_root handle_get_block
  handler-Honest floats env ops now nanos s r inv = elim (Bool-cases (r.verb == codes "OPTIONS")) [
    | inl options ↦ rw (handler, options) tt
    | inr other ↦ elim (Option-cases (web.route r.verb r.url_path)) [
      | inl unrouted ↦ rw (handler, other, unrouted) tt
      | inr (to_submit, way) ↦
          rw (handler, other, way)
            (with_auth-Honest (handle_submit web nanos (λ e. perform_all env e ops) r) s now r inv
              (λ s' same.
                handle_submit-Honest web env ops nanos r s' (moved s.engine s'.engine same inv)))
      | inr (to_health, way) ↦
          rw (handler, other, way) (optional_auth-Honest (handle_health floats) s now r tt)
      | inr (to_state_root, way) ↦
          rw (handler, other, way) (optional_auth-Honest handle_state_root s now r tt)
      | inr (to_verify text, way) ↦
          rw (handler, other, way)
            (with_auth-Honest (handle_verify web text) s now r inv
              (λ s' same. handle_verify-Honest web text s' (moved s.engine s'.engine same inv)))
      | inr (to_block text, way) ↦
          rw (handler, other, way)
            (with_auth-Honest (handle_get_block web text) s now r inv
              (λ s' same. handle_get_block-Honest text s'))
    ]
  ]
