-- ===== src/Tests/TransportTests.antt =====
-- Two nodes at small inputs, over a cipher that only puts sixteen zero bytes in front.
use gleipnir.Prelude.{
  ℕ, ◌*◌, ◌^◌, ◌≡◌, refl, true, false, Bytes, bytes_eq, bytes_beq, Option, none, some, List, [],
  ◌∷◌, ◌++◌, length, length-append, length-replicate, zero_bytes, codes, arith, leb, if◌then◌else◌,
  map, All,
}
use gleipnir.Prelude.Int.{pos}
use gleipnir.Prelude.Table.{lookup}
use gleipnir.Prelude.Words.{be_bytes}
use gleipnir.Prelude.Results.{ok, err}
use gleipnir.Chain.{ProvenanceEntry}
use gleipnir.Consensus.Commit.Phase.{Committer, PrepareResult, no_final, run_commit_phase}
use gleipnir.Validation.KeyRotation.{new_validator}
use gleipnir.Engine.Submission.{submitted}
use gleipnir.Transport.{
  Ciphers, Side, PeerInfo, frame_too_large, read_full, write_message, read_message,
  client_handshake, server_handshake,
}
use gleipnir.Transport.Frames
use gleipnir.Transport.Frames.{Seals, read_full-append}
use gleipnir.Transport.Handshake
use gleipnir.Transport.Handshake.{IsPeerId}
use gleipnir.Transport.P2p.{
  Json, proposals, GossipBus, publish, publish_final, snapshot, get_proposed, get_final,
  handle_stream, redial_rounds,
}
use gleipnir.Transport.P2p.Delivery
use gleipnir.Transport.P2p.Delivery.{Stream, streams, others}
use gleipnir.Transport.P2p.Finals
use gleipnir.Transport.P2p.Finals.{Event, receives, publishes, finds, happen_all}
use gleipnir.Transport.P2p.Redial
use gleipnir.Tests.Fixtures.{toy_lib, toy_hash, toy_secret, candidate, four_peers}

abbrev second : Option (Bytes × Bytes) → Option Bytes
second none = none
second (some (a, b)) = some b

abbrev plain : Ciphers
plain = record {
  hkdf = λ secret salt info. secret ++ info;
  new_aead = λ key. true;
  seal = λ key nonce bytes. zero_bytes 16 ++ bytes;
  opened = λ key nonce ct. second (read_full 16 ct);
  encapsulate_to = λ pk seed. (zero_bytes 1568, seed);
  decapsulate_to = λ sk ct. 9 ∷ [];
}

plain-Seals : (key : Bytes) → Seals plain key
plain-Seals key = record {
  opens = λ nonce bytes n. rw (read_full-append 16 (zero_bytes 16) bytes refl) refl;
  longer = λ nonce bytes n. omega (arith, length-append (zero_bytes 16) bytes);
}

write_message-read_message_example :
    (frame : Bytes) × (write_message plain [] (some (zero_bytes 12)) (1 ∷ 2 ∷ []) ≡ ok frame)
    × (read_message plain [] (frame ++ (7 ∷ [])) ≡ (
        if leb (length {A = ℕ} (1 ∷ 2 ∷ [])) 1048560
        then ok (1 ∷ 2 ∷ [], 7 ∷ [])
        else err frame_too_large))
write_message-read_message_example =
    Frames.write_message-read_message plain [] (zero_bytes 12) (1 ∷ 2 ∷ []) (7 ∷ [])
      (plain-Seals []) refl (omega arith)

abbrev side : Bytes → Side
side id = record { id = id; public_key = zero_bytes 1568; secret_key = zero_bytes 3168 }

abbrev info : Bytes → PeerInfo
info id = record { peer_id = id; public_key = zero_bytes 1568 }

handshake_agrees_example :
    (key from_client from_server : Bytes) × (client_handshake plain
        (side (codes "ann"))
        (9 ∷ [])
        (from_server ++ (1 ∷ []))
      ≡ (from_client, ok (record { key = key; peer = info (codes "bob"); unread = 1 ∷ [] })))
    × (server_handshake plain (side (codes "bob")) (from_client ++ [])
        ≡ (from_server, ok (record { key = key; peer = info (codes "ann"); unread = [] })))
handshake_agrees_example =
    Handshake.handshake_agrees plain (side (codes "ann")) (side (codes "bob")) (9 ∷ []) (1 ∷ []) []
      (record { fits = omega arith; no_zero = (refl, (refl, (refl, tt))) })
      (record { fits = omega arith; no_zero = (refl, (refl, (refl, tt))) })
      (length-replicate {A = ℕ} 1568 0) (length-replicate {A = ℕ} 1568 0)
      (length-replicate {A = ℕ} 3168 0)
      (record { size = length-replicate {A = ℕ} 1568 0; same = refl }) refl

abbrev sent_entry : ProvenanceEntry
sent_entry = submitted (128 ∷ []) (7 ∷ []) [] (pos 3)

abbrev json : Json
json = record {
  of_entry = λ e. 1 ∷ [];
  of_block = λ b. 2 ∷ [];
  of_sig = λ s. 3 ∷ [];
  of_proof = λ p. 4 ∷ [];
  to_entry = λ bs. some sent_entry;
  to_block = λ bs. some candidate;
  to_sig = λ bs. none;
  to_proof = λ bs. none;
}

abbrev node : ℕ → GossipBus
node i = record {
  host_id = i ∷ [];
  pending = [];
  held_proposals = [];
  held_finals = [];
  held_sigs = [];
  held_proofs = [];
  connected = [];
  known_addrs = (5 ∷ [], (1 ∷ []) ∷ (2 ∷ []) ∷ (3 ∷ []) ∷ []) ∷ [];
}

abbrev ids : List Bytes
ids = (1 ∷ []) ∷ (2 ∷ []) ∷ (3 ∷ []) ∷ []

publish-delivers_example :
    (map (λ (t : Stream). t.0) (streams (node 1) ids (publish json (node 1) sent_entry).1)
      ≡ others (1 ∷ []) ids)
    × All
        (λ (t : Stream).
          (b : GossipBus) → snapshot (handle_stream json b t.1 t.2) ≡ snapshot b ++ sent_entry ∷ [])
        (streams (node 1) ids (publish json (node 1) sent_entry).1)
publish-delivers_example =
    Delivery.publish-delivers json (node 1) ids sent_entry refl (omega arith) (omega arith)

publish_final-arrives_as_candidate_example :
    (map (λ (t : Stream). t.0) (streams (node 1) ids (publish_final json (node 1) candidate).1)
      ≡ others (1 ∷ []) ids)
    × All
        (λ (t : Stream).
          (b : GossipBus)
          → (get_proposed (handle_stream json b t.1 t.2) candidate.index ≡ some candidate)
            × ((cycle : ℕ) → get_final (handle_stream json b t.1 t.2) cycle ≡ get_final b cycle))
        (streams (node 1) ids (publish_final json (node 1) candidate).1)
publish_final-arrives_as_candidate_example =
    Delivery.publish_final-arrives_as_candidate json (node 1) ids candidate refl (omega arith)
      (omega arith)

abbrev follower : Committer
follower = record {
  my_id = 2 ∷ [];
  secret_key = toy_secret 2;
  peers = four_peers;
  has_gossip = true;
  rotations = new_validator [] 0 10 10;
}

abbrev prepared : PrepareResult
prepared = record {
  block = candidate;
  prepare_sigs = [];
  prepare_bitmap = [];
  leader_id = 1 ∷ [];
  quorum_reached = true;
}

-- The leader's final block arrives, and a peer is found.
abbrev arrivals : List Event
arrivals =
    receives proposals (be_bytes 4 1 ++ (2 ∷ []))
    ∷ finds (record { id = 6 ∷ []; addrs = (4 ∷ []) ∷ [] })
    ∷ publishes sent_entry
    ∷ []

follower_never_commits_example :
    run_commit_phase toy_lib toy_hash follower 0 prepared
      (get_final (happen_all json (node 2) arrivals) 0)
    ≡ err no_final
unfolding get_final lookup bytes_beq
follower_never_commits_example =
    Finals.follower_never_commits json toy_lib toy_hash (node 2) arrivals 0 follower prepared refl
      refl refl refl

redial_rounds-doubles_example :
    (final : List Bytes) × (lookup
        (5 ∷ [])
        (redial_rounds (λ id. false) 40 0 (node 2, [])).0.known_addrs
      ≡ some final)
    × (length final ≡ 3 * 2 ^ 40)
unfolding lookup bytes_beq
redial_rounds-doubles_example =
    Redial.redial_rounds-doubles (λ id. false) (5 ∷ []) 40 0 ((1 ∷ []) ∷ (2 ∷ []) ∷ (3 ∷ []) ∷ [])
      (node 2, []) refl refl refl refl
