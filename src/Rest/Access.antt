-- ===== src/Rest/Access.antt =====
-- Who is served: authenticate, withAuth and the limiter of pkg/rest/server.go.
use gleipnir.Prelude.{
  is_empty, ℕ, ◌≡◌, ◌↔◌, ◌⊎◌, refl, ◌∙◌, inl, inr, Bool-cases, Option-cases, true, false, ◌||◌,
  Bytes, bytes_eq, ◌==◌, codes, some, List, [], ◌∷◌, arith,
}
use gleipnir.Prelude.Int.{ℤ}
use gleipnir.Prelude.Table.{lookup}
use gleipnir.Prelude.Results.{ok, Result-cases}
use gleipnir.Identity.Dilithium.{Mldsa, verify_dilithium}
use gleipnir.Engine.{Engine, Floats, lookup_hash}
use gleipnir.Engine.Submission.{enqueue}
use gleipnir.Transport.P2p.{or_false}
use gleipnir.Rest.{
  Request, Web, Answer, RestServer, Moment, allow, is_stale, signed_text, authenticate, with_auth,
  optional_auth, read_submit, await_anchor, handle_submit, handle_verify, handle_get_block,
  handle_health, handle_state_root, handler, to_submit, to_health, to_state_root, to_verify,
  to_block,
}

module _ (web : Web) (lib : Mldsa) where
  -- A request that names a root with a key here, which is allowed where there is a list of allowed
  -- roots, with a timestamp at most 30 seconds off, and with that key's signature of body, method,
  -- path and timestamp.
  pub record Authentic (s : RestServer) (now : ℕ) (r : Request) : Type 0 where
    pub named : (is_empty r.root_id || (is_empty r.signature || is_empty r.timestamp)) ≡ false
    pub ts : ℤ
    pub dated : web.parse_int r.timestamp ≡ some ts
    pub fresh : is_stale now ts ≡ false
    pub key : Bytes
    pub known : lookup r.root_id s.keys ≡ some key
    pub allowed : (is_empty s.allowed_roots || or_false (lookup r.root_id s.allowed_roots)) ≡ true
    pub sig : Bytes
    pub decoded : web.decode_hex r.signature ≡ some sig
    pub signed : verify_dilithium lib key (signed_text r) sig ≡ true

  Authentic-authenticate :
      (s : RestServer) (now : ℕ) (r : Request)
      → Authentic s now r
      → authenticate web lib s now r ≡ ok r.root_id
  unfolding authenticate
  Authentic-authenticate s now r a =
      rw (authenticate, a.named, a.dated, a.fresh, a.known, a.allowed, a.decoded, a.signed) refl

  authenticate-Authentic :
      (s : RestServer) (now : ℕ) (r : Request) (root : Bytes)
      → authenticate web lib s now r ≡ ok root
      → Authentic s now r
  unfolding authenticate
  authenticate-Authentic s now r root h = elim (Option-cases (web.parse_int r.timestamp)) [
    | inl undated ↦ absurd (ground arith)
    | inr (ts, dated) ↦ elim (Option-cases (lookup r.root_id s.keys)) [
      | inl unknown ↦ absurd (ground arith)
      | inr (key, known) ↦ elim (Option-cases (web.decode_hex r.signature)) [
        | inl garbled ↦ absurd (ground arith)
        | inr (sig, decoded) ↦ record {
          named = ground arith;
          ts = ts;
          dated = dated;
          fresh = ground arith;
          key = key;
          known = known;
          allowed = ground arith;
          sig = sig;
          decoded = decoded;
          signed = ground arith;
        }
      ]
    ]
  ]

  -- A request is authenticated exactly when it is authentic.
  pub authenticate_iff :
      (s : RestServer) (now : ℕ) (r : Request)
      → (authenticate web lib s now r ≡ ok r.root_id) ↔ Authentic s now r
  authenticate_iff s now r =
      (authenticate-Authentic s now r r.root_id, Authentic-authenticate s now r)

  with_auth-guarded :
      (next : RestServer → RestServer × Answer) (s : RestServer) (now : ℕ) (r : Request)
      → Authentic s now r ⊎ ((with_auth web lib next s now r).0 ≡ s)
  unfolding with_auth
  with_auth-guarded next s now r = elim (Result-cases (authenticate web lib s now r)) [
    | inl (root, a) ↦ inl (authenticate-Authentic s now r root a)
    | inr (x, no_auth) ↦ inr (rw (with_auth, no_auth) refl)
  ]

  optional_auth-keeps :
      (next : RestServer → RestServer × Answer) (s : RestServer) (now : ℕ) (r : Request)
      → (next s).0 ≡ s
      → (optional_auth web lib next s now r).0 ≡ s
  unfolding optional_auth
  optional_auth-keeps next s now r keeps = ground arith

  -- A request that is not authentic leaves the server and its engine as they are, on every route.
  pub handler_guarded :
      (floats : Floats) (m : Moment) (s : RestServer) (r : Request)
      → Authentic s m.now r ⊎ ((handler web lib floats m s r).0 ≡ s)
  unfolding handler handle_health handle_state_root
  handler_guarded floats m s r = elim (Bool-cases (r.verb == codes "OPTIONS")) [
    | inl options ↦ inr (rw (handler, options) refl)
    | inr other ↦ elim (Option-cases (web.route r.verb r.url_path)) [
      | inl unrouted ↦ inr (rw (handler, other, unrouted) refl)
      | inr (to_submit, way) ↦
          rw (other, way) (with_auth-guarded (handle_submit web m.nanos m.meanwhile r) s m.now r)
      | inr (to_health, way) ↦
          inr (rw (handler, other, way) (optional_auth-keeps (handle_health floats) s m.now r refl))
      | inr (to_state_root, way) ↦
          inr (rw (handler, other, way) (optional_auth-keeps handle_state_root s m.now r refl))
      | inr (to_verify text, way) ↦
          rw (other, way) (with_auth-guarded (handle_verify web text) s m.now r)
      | inr (to_block text, way) ↦
          rw (other, way) (with_auth-guarded (handle_get_block web text) s m.now r)
    ]
  ]

  -- Any requests, one after the other.
  abbrev pub serve_all : Floats → List (Moment × Request) → RestServer → RestServer
  serve_all floats [] s = s
  serve_all floats ((m, r) ∷ rest) s = serve_all floats rest (handler web lib floats m s r).0

  abbrev SameKeys : RestServer → RestServer → Type 0
  SameKeys s s' = (s'.keys ≡ s.keys) × (s'.allowed_roots ≡ s.allowed_roots)

  await_anchor-SameKeys :
      (meanwhile : Engine → Engine) (s : RestServer) (text h : Bytes)
      → SameKeys s (await_anchor meanwhile s text h).0
  unfolding await_anchor
  await_anchor-SameKeys meanwhile s text h =
      elim (Option-cases (lookup_hash (meanwhile s.engine) h)) [
        | inl late ↦ rw (await_anchor, late) (refl, refl)
        | inr (proof, found) ↦ rw (await_anchor, found) (refl, refl)
      ]

  handle_submit-SameKeys :
      (nanos : ℕ) (meanwhile : Engine → Engine) (r : Request) (s : RestServer)
      → SameKeys s (handle_submit web nanos meanwhile r s).0
  unfolding handle_submit await_anchor
  handle_submit-SameKeys nanos meanwhile r s = elim (Result-cases (read_submit web nanos r.body)) [
    | inr (a, bad) ↦ rw (handle_submit, bad) (refl, refl)
    | inl ((text, entry), good) ↦ elim (Result-cases (enqueue s.engine entry nanos).1) [
      | inr (x, full) ↦ rw (handle_submit, good, full) (refl, refl)
      | inl (u, queued) ↦
          rw (handle_submit, good, queued)
            (await_anchor-SameKeys meanwhile
              (record s { engine = (enqueue s.engine entry nanos).0 }) text entry.hash)
    ]
  ]

  with_auth-SameKeys :
      (next : RestServer → RestServer × Answer) (s : RestServer) (now : ℕ) (r : Request)
      → ((s' : RestServer) → SameKeys s' (next s').0)
      → SameKeys s (with_auth web lib next s now r).0
  unfolding with_auth
  with_auth-SameKeys next s now r keeps = elim (Result-cases (authenticate web lib s now r)) [
    | inr (x, no_auth) ↦ rw (with_auth, no_auth) (refl, refl)
    | inl (root, a) ↦
        let asked = allow s.limiter root now in
        elim (Bool-cases asked.1) [
          | inl granted ↦ rw (with_auth, a, granted) (keeps (record s { limiter = asked.0 }))
          | inr limited ↦ rw (with_auth, a, limited) (refl, refl)
        ]
  ]

  handle_verify-keeps : (text : Bytes) (s : RestServer) → (handle_verify web text s).0 ≡ s
  unfolding handle_verify
  handle_verify-keeps text s = ground arith

  handle_get_block-keeps : (text : Bytes) (s : RestServer) → (handle_get_block web text s).0 ≡ s
  unfolding handle_get_block
  handle_get_block-keeps text s = ground arith

  handler-SameKeys :
      (floats : Floats) (m : Moment) (s : RestServer) (r : Request)
      → SameKeys s (handler web lib floats m s r).0
  unfolding handler handle_health handle_state_root
  handler-SameKeys floats m s r = elim (Bool-cases (r.verb == codes "OPTIONS")) [
    | inl options ↦ rw (handler, options) (refl, refl)
    | inr other ↦ elim (Option-cases (web.route r.verb r.url_path)) [
      | inl unrouted ↦ rw (handler, other, unrouted) (refl, refl)
      | inr (to_submit, way) ↦
          rw (handler, other, way)
            (with_auth-SameKeys (handle_submit web m.nanos m.meanwhile r) s m.now r
              (handle_submit-SameKeys m.nanos m.meanwhile r))
      | inr (to_health, way) ↦
          rw (handler, other, way, optional_auth-keeps (handle_health floats) s m.now r refl)
            (refl, refl)
      | inr (to_state_root, way) ↦
          rw (handler, other, way, optional_auth-keeps handle_state_root s m.now r refl)
            (refl, refl)
      | inr (to_verify text, way) ↦
          rw (handler, other, way)
            (with_auth-SameKeys (handle_verify web text) s m.now r
              (λ s'. rw (handle_verify-keeps text s') (refl, refl)))
      | inr (to_block text, way) ↦
          rw (handler, other, way)
            (with_auth-SameKeys (handle_get_block web text) s m.now r
              (λ s'. rw (handle_get_block-keeps text s') (refl, refl)))
    ]
  ]

  serve_all-SameKeys :
      (floats : Floats) (served : List (Moment × Request)) (s : RestServer)
      → SameKeys s (serve_all floats served s)
  serve_all-SameKeys floats [] s = (refl, refl)
  serve_all-SameKeys floats ((m, r) ∷ rest) s =
      let one = handler-SameKeys floats m s r in
      let more = serve_all-SameKeys floats rest (handler web lib floats m s r).0 in
      (more.0 ∙ one.0, more.1 ∙ one.1)

  -- An authentic request that was served is authentic again, whatever was served since, itself among
  -- it, as long as the time that it carries is not stale: a request may be replayed.
  pub authentic_again :
      (floats : Floats) (served : List (Moment × Request)) (s : RestServer) (now now' : ℕ)
      (r : Request) (a : Authentic s now r)
      → is_stale now' a.ts ≡ false
      → authenticate web lib (serve_all floats served s) now' r ≡ ok r.root_id
  authentic_again floats served s now now' r a still =
      let keys = serve_all-SameKeys floats served s in
      Authentic-authenticate (serve_all floats served s) now' r (record {
        named = a.named;
        ts = a.ts;
        dated = a.dated;
        fresh = still;
        key = a.key;
        known = rw keys.0 a.known;
        allowed = rw keys.1 a.allowed;
        sig = a.sig;
        decoded = a.decoded;
        signed = a.signed;
      })
