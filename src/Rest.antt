-- ===== src/Rest.antt =====
-- pkg/rest/server.go: the REST interface to one engine. A request is handled in one step, but for the
-- wait of POST /v1/submit: what the engine does meanwhile is an argument. The clock is an argument too,
-- in seconds, and in nanoseconds for the entry's timestamp. Loading of keys, CORS headers and the
-- texts of messages are left out. Before the mux, OPTIONS is answered by withCORS.
pub mod Access
pub mod Window
pub mod Answers
use gleipnir.Prelude.{
  is_empty, ℕ, ◌+◌, ◌-◌, Bool, true, false, not, ◌&&◌, ◌||◌, Bytes, bytes_eq, ◌==◌, codes, Option,
  none, some, List, [], ◌∷◌, ◌++◌, length, ltb, leb, nat_beq, if◌then◌else◌,
}
use gleipnir.Prelude.Int.{ℤ, pos, negsuc}
use gleipnir.Prelude.Table.{Table, lookup, insert}
use gleipnir.Prelude.Results.{Result, ok, err, guard, or_fail, ◌>>=◌, ◌>>◌}
use gleipnir.Identity.Dilithium.{Mldsa, verify_dilithium}
use gleipnir.Chain.{Block, ProvenanceEntry}
use gleipnir.Engine.{
  Engine, EngineError, AnchorProof, NetworkHealth, Floats, lookup_hash, get_block, get_health,
  is_zero_hash, invalid_hash, invalid_submitter, label_too_long,
}
use gleipnir.Engine.Submission.{enqueue}
use gleipnir.Transport.P2p.{or_false}
use gleipnir.Transport.{padded}

-- A request, once its body has been read. A header that is missing is empty.
pub record Request : Type 0 where
  pub verb : Bytes
  pub url_path : Bytes
  pub body : Bytes
  pub root_id : Bytes
  pub signature : Bytes
  pub timestamp : Bytes

pub record SubmitRequest : Type 0 where
  pub hash : Bytes
  pub submitter : Bytes
  pub label : Bytes

pub data JsonError : Type 0 where
  malformed unknown_field : JsonError

pub data Route : Type 0 where
  to_submit to_health to_state_root : Route
  to_verify to_block : Bytes → Route

-- strconv, encoding/hex, encoding/json with its limit on the body, and the patterns of net/http.
pub record Web : Type 0 where
  pub parse_int : Bytes → Option ℤ
  pub parse_uint : Bytes → Option ℕ
  pub decode_hex : Bytes → Option Bytes
  pub decode_submit : Bytes → Result JsonError SubmitRequest
  pub route : Bytes → Bytes → Option Route

-- An error answer: the status, and the code.
pub data Answer : Type 0 where
  refused : ℕ → Bytes → Answer
  no_content not_routed : Answer
  anchored : ℕ → Bytes → AnchorProof → Answer
  block_found : Block → Answer
  health : NetworkHealth → Bytes → Answer
  state_root : Bytes → ℕ → Answer

pub record RateLimiter : Type 0 where
  pub windows : Table Bytes (List ℕ)
  pub max_req : ℕ

pub record RestServer : Type 0 where
  pub engine : Engine
  pub keys : Table Bytes Bytes
  pub allowed_roots : Table Bytes Bool
  pub limiter : RateLimiter

-- w.entries, where a new window is empty.
abbrev entries_of : Option (List ℕ) → List ℕ
entries_of none = []
entries_of (some ts) = ts

-- The times of a window that are not past: t >= now - 60, for times from 1970 on.
unfoldable pub still_valid : ℕ → List ℕ → List ℕ
still_valid now [] = []
still_valid now (t ∷ ts) =
    let rest = still_valid now ts in if leb now (t + 60) then t ∷ rest else rest

-- Allow of perRootLimiter.
unfoldable pub allow : RateLimiter → Bytes → ℕ → RateLimiter × Bool
allow rl root now =
    let valid = still_valid now (entries_of (lookup root rl.windows)) in
    if leb rl.max_req (length valid)
    then (record rl { windows = insert root valid rl.windows }, false)
    else (record rl { windows = insert root (valid ++ now ∷ []) rl.windows }, true)

pub data AuthError : Type 0 where
  missing_headers invalid_timestamp stale_timestamp unknown_root : AuthError
  invalid_encoding invalid_signature : AuthError

-- math.Abs(now - ts) > 30, for a clock from 1970 on. A wrap-around does not bring them closer.
unfoldable pub is_stale : ℕ → ℤ → Bool
is_stale now (pos ts) = ltb 30 ((now - ts) + (ts - now))
is_stale now (negsuc n) = ltb 30 (now + n + 1)

-- The text that a client signs.
unfoldable pub signed_text : Request → Bytes
signed_text r =
    r.body
    ++ (codes "||" ++ (r.verb ++ (codes "||" ++ (r.url_path ++ (codes "||" ++ r.timestamp)))))

module _ (web : Web) (lib : Mldsa) where
  unfoldable pub authenticate : RestServer → ℕ → Request → Result AuthError Bytes
  authenticate s now r = do
    guard (not (is_empty r.root_id || (is_empty r.signature || is_empty r.timestamp)))
        missing_headers
    ts ← or_fail (web.parse_int r.timestamp) invalid_timestamp
    guard (not (is_stale now ts)) stale_timestamp
    pk ← or_fail (lookup r.root_id s.keys) unknown_root
    guard (is_empty s.allowed_roots || or_false (lookup r.root_id s.allowed_roots)) unknown_root
    sig ← or_fail (web.decode_hex r.signature) invalid_encoding
    guard (verify_dilithium lib pk (signed_text r) sig) invalid_signature
    ok r.root_id

  -- The code that withAuth writes.
  abbrev auth_code : AuthError → Bytes
  auth_code stale_timestamp = codes "STALE_TIMESTAMP"
  auth_code unknown_root = codes "UNKNOWN_ROOT"
  auth_code missing_headers = codes "INVALID_SIGNATURE"
  auth_code invalid_timestamp = codes "INVALID_SIGNATURE"
  auth_code invalid_encoding = codes "INVALID_SIGNATURE"
  auth_code invalid_signature = codes "INVALID_SIGNATURE"

  unfoldable pub with_auth :
      (RestServer → RestServer × Answer) → RestServer → ℕ → Request → RestServer × Answer
  with_auth next s now r = elim (authenticate s now r) [
    | err x ↦ (s, refused 401 (auth_code x))
    | ok root ↦
        let asked = allow s.limiter root now in
        let counted = record s { limiter = asked.0 } in
        if asked.1 then next counted else (counted, refused 429 (codes "RATE_LIMITED"))
  ]

  unfoldable pub optional_auth :
      (RestServer → RestServer × Answer) → RestServer → ℕ → Request → RestServer × Answer
  optional_auth next s now r = if is_empty r.root_id then next s else elim (authenticate s now r) [
    | err x ↦ (s, refused 401 (codes "INVALID_SIGNATURE"))
    | ok root ↦ next s
  ]

abbrev pub Refusal : Type 0
Refusal = ℕ × Bytes

-- What handleSubmit answers to an error of Enqueue: the errors of validateEntry carry a code, the
-- others do not.
abbrev enqueue_refusal : EngineError → Refusal
enqueue_refusal invalid_hash = (400, codes "INVALID_HASH")
enqueue_refusal invalid_submitter = (400, codes "INVALID_SUBMITTER")
enqueue_refusal label_too_long = (400, codes "LABEL_TOO_LONG")
enqueue_refusal x = (500, codes "INTERNAL_ERROR")

-- The checks of handleSubmit: the entry to enqueue, or the status and code of the refusal.
unfoldable pub read_submit : Web → ℕ → Bytes → Result Refusal (Bytes × ProvenanceEntry)
read_submit web nanos body = elim (web.decode_submit body) [
  | err malformed ↦ err (400, codes "INVALID_JSON")
  | err unknown_field ↦ err (400, codes "EXTRA_FIELDS")
  | ok req ↦ do
    guard (nat_beq (length req.hash) 64) (400, codes "INVALID_HASH")
    bytes ← or_fail (web.decode_hex req.hash) (400, codes "INVALID_HASH")
    let h = padded 32 bytes
    guard (not (is_zero_hash h)) (400, codes "INVALID_HASH")
    guard (not (is_empty req.submitter)) (400, codes "EMPTY_SUBMITTER")
    guard (not (ltb 1024 (length req.label))) (400, codes "LABEL_TOO_LONG")
    ok (
      req.hash,
      record {
        hash = h;
        submitter = padded 16 req.submitter;
        timestamp = pos nanos;
        label = req.label;
        approver = none;
        reference = none;
        signature = [];
        mandate_ref = none;
      },
    )
]

-- WaitForAnchor, and the answer: `meanwhile` is what the engine does until its last look.
unfoldable pub await_anchor : (Engine → Engine) → RestServer → Bytes → Bytes → RestServer × Answer
await_anchor meanwhile s text h =
    let e = meanwhile s.engine in
    let s' = record s { engine = e } in
    elim (lookup_hash e h) [
      | none ↦ (s', refused 503 (codes "QUEUE_FULL"))
      | some proof ↦ (s', anchored 201 text proof)
    ]

unfoldable pub handle_submit :
    Web → ℕ → (Engine → Engine) → Request → RestServer → RestServer × Answer
unfolding await_anchor read_submit
handle_submit web nanos meanwhile r s = elim (read_submit web nanos r.body) [
  | err a ↦ (s, refused a.0 a.1)
  | ok (text, entry) ↦
      let queued = enqueue s.engine entry nanos in
      let s' = record s { engine = queued.0 } in
      elim queued.1 [
        | err x ↦ (s', refused (enqueue_refusal x).0 (enqueue_refusal x).1)
        | ok u ↦ await_anchor meanwhile s' text entry.hash
      ]
]

unfoldable pub handle_verify : Web → Bytes → RestServer → RestServer × Answer
handle_verify web text s =
    if not (nat_beq (length text) 64)
    then (s, refused 400 (codes "INVALID_HASH"))
    else elim (web.decode_hex text) [
      | none ↦ (s, refused 400 (codes "INVALID_HASH"))
      | some bytes ↦ elim (lookup_hash s.engine (padded 32 bytes)) [
        | none ↦ (s, refused 404 (codes "NOT_FOUND"))
        | some proof ↦ (s, anchored 200 text proof)
      ]
    ]

unfoldable pub handle_get_block : Web → Bytes → RestServer → RestServer × Answer
handle_get_block web text s = elim (web.parse_uint text) [
  | none ↦ (s, refused 400 (codes "INVALID_JSON"))
  | some index ↦ elim (get_block s.engine index) [
    | none ↦ (s, refused 404 (codes "NOT_FOUND"))
    | some b ↦ (s, block_found b)
  ]
]

unfoldable pub handle_health : Floats → RestServer → RestServer × Answer
handle_health floats s = (s, health (get_health floats s.engine) s.engine.st.root)

unfoldable pub handle_state_root : RestServer → RestServer × Answer
handle_state_root s = (s, state_root s.engine.st.root (length s.engine.blocks))

-- The clock and the engine's doings while a request is handled.
pub record Moment : Type 0 where
  pub now : ℕ
  pub nanos : ℕ
  pub meanwhile : Engine → Engine

-- Handler, behind withCORS.
unfoldable pub handler : Web → Mldsa → Floats → Moment → RestServer → Request → RestServer × Answer
unfolding handle_submit handle_verify handle_get_block handle_health handle_state_root
handler web lib floats m s r =
    if r.verb == codes "OPTIONS" then (s, no_content) else elim (web.route r.verb r.url_path) [
      | none ↦ (s, not_routed)
      | some to_submit ↦ with_auth web lib (handle_submit web m.nanos m.meanwhile r) s m.now r
      | some to_health ↦ optional_auth web lib (handle_health floats) s m.now r
      | some to_state_root ↦ optional_auth web lib handle_state_root s m.now r
      | some (to_verify text) ↦ with_auth web lib (handle_verify web text) s m.now r
      | some (to_block text) ↦ with_auth web lib (handle_get_block web text) s m.now r
    ]
