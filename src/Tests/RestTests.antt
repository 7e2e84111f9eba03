-- ===== src/Tests/RestTests.antt =====
-- The REST server over an engine from its start, with a web whose every request asks for one hash.
use gleipnir.Prelude.{
  length, nat_beq, if◌then◌else◌, ℕ, ◌≡◌, ◌⊎◌, refl, Bytes, bytes_eq, bytes_beq, some, List, [],
  ◌∷◌, codes, arith, replicate,
}
use gleipnir.Prelude.Int.{pos}
use gleipnir.Prelude.Table.{lookup}
use gleipnir.Prelude.Results.{ok, err}
use gleipnir.Identity.Dilithium.{verify_dilithium}
use gleipnir.Engine.Start.{new_engine_with_peers}
use gleipnir.Engine.Start
use gleipnir.Engine.Submission.{submitted}
use gleipnir.Transport.{padded}
use gleipnir.Prelude.Table.{insert}
use gleipnir.Rest.{
  handle_verify, with_auth, allow, still_valid, Answer, anchored, Web, Request, RestServer, Moment,
  malformed, authenticate, is_stale, handler, to_verify, signed_text,
}
use gleipnir.Rest.Access
use gleipnir.Rest.Access.{Authentic, serve_all}
use gleipnir.Rest.Answers
use gleipnir.Rest.Answers.{Honest}
use gleipnir.Rest.Window
use gleipnir.Rest.Window.{answers, ideal_answers}
use gleipnir.Engine.Operations.{perform_all}
use gleipnir.Tests.Fixtures.{toy_peer, toy_lib, toy_key, toy_sig}
use gleipnir.Tests.EngineTests.{toy_env, shared_bus}
use gleipnir.Tests.StartTests.{lone_proof, anchors, me, started, lone, lone_hash, one_cycle}

abbrev web : Web
web = record {
  parse_int = λ text. some (pos 100);
  parse_uint = λ text. some 0;
  decode_hex = λ text. if nat_beq (length text) 64 then some lone_hash else some (toy_sig 1);
  decode_submit = λ body. err malformed;
  route = λ verb path. some (to_verify path);
}

abbrev server : RestServer
server = record {
  engine = started;
  keys = (1 ∷ [], toy_key 1) ∷ [];
  allowed_roots = [];
  limiter = record { windows = []; max_req = 5 };
}

abbrev request : Request
request = record {
  verb = codes "GET";
  url_path = replicate 64 48;
  body = [];
  root_id = 1 ∷ [];
  signature = 2 ∷ [];
  timestamp = 3 ∷ [];
}

abbrev at_time : ℕ → Moment
at_time now = record { now = now; nanos = 0; meanwhile = λ e. e }

request-Authentic : Authentic web toy_lib server 110 request
unfolding lookup bytes_beq is_stale verify_dilithium signed_text
request-Authentic = record {
  named = refl;
  ts = pos 100;
  dated = refl;
  fresh = refl;
  key = toy_key 1;
  known = refl;
  allowed = refl;
  sig = toy_sig 1;
  decoded = refl;
  signed = refl;
}

authentic_again_example :
    authenticate web toy_lib
      (serve_all web toy_lib toy_env.floats
        ((at_time 110, request) ∷ (at_time 112, request) ∷ [])
        server)
      125
      request
    ≡ ok (1 ∷ [])
unfolding is_stale request-Authentic
authentic_again_example =
    Access.authentic_again web toy_lib toy_env.floats
      ((at_time 110, request) ∷ (at_time 112, request) ∷ []) server 110 125 request
      request-Authentic refl

handler_guarded_example :
    Authentic web toy_lib server 200 request
    ⊎ ((handler web toy_lib toy_env.floats (at_time 200) server request).0 ≡ server)
handler_guarded_example =
    Access.handler_guarded web toy_lib toy_env.floats (at_time 200) server request

-- Three requests within a minute, and one later, where two a minute are allowed.
abbrev calls : List (Bytes × ℕ)
calls = (1 ∷ [], 100) ∷ (1 ∷ [], 110) ∷ (1 ∷ [], 160) ∷ (1 ∷ [], 161) ∷ []

limiter_answers_like_ideal_example :
    answers (record { windows = []; max_req = 2 }) calls ≡ ideal_answers 2 (λ root. []) calls
limiter_answers_like_ideal_example = Window.limiter_answers_like_ideal 2 100 calls (omega arith)

-- The server over an engine that has anchored the hash.
abbrev backed : RestServer
backed = record server { engine = perform_all toy_env lone one_cycle }

abbrev served : RestServer × Answer
served = handler web toy_lib toy_env.floats (at_time 110) backed request

-- The answer has the proof.
answers_with_proof : served.1 ≡ anchored 200 (replicate 64 48) lone_proof
unfolding handler handle_verify with_auth authenticate is_stale signed_text verify_dilithium allow
    still_valid lookup insert bytes_beq padded
answers_with_proof = rw anchors refl

handler-Honest_example : Honest web served.0 served.1
handler-Honest_example =
    Answers.handler-Honest web toy_lib toy_env.floats toy_env [] 110 0 backed request (
      Start.started-ProofsInBlocks toy_env me
        (some (record shared_bus { entries = submitted lone_hash (7 ∷ []) [] (pos 3) ∷ [] }))
        (some (toy_peer 1 ∷ [])) one_cycle)
