-- ===== src/Tests/Fixtures.antt =====
-- Stand-ins for the third-party code, and a few validators. The toy signature scheme accepts a
-- signature under a key when both begin with the same byte.
use gleipnir.Prelude.{
  ℕ, Bool, true, false, Bytes, bytes_eq, nat_beq, Option, none, some, List, [], ◌∷◌, replicate,
}
use gleipnir.Prelude.Int.{pos}
use gleipnir.Prelude.Table.{Table}
use gleipnir.Identity.Dilithium.{Mldsa}
use gleipnir.Chain.{Block}
use gleipnir.Chain.KeyRotation.{KeyRotationEntry, Codec, key_rotation_label}
use gleipnir.Chain.BlockHash.{HashCodec}
use gleipnir.Consensus.Peer.{Peer}

abbrev same_head : Bytes → Bytes → Bool
same_head [] sig = false
same_head (a ∷ as') [] = false
same_head (a ∷ as') (b ∷ bs) = nat_beq a b

abbrev pub toy_key : ℕ → Bytes
toy_key i = i ∷ replicate 1951 0

abbrev pub toy_secret : ℕ → Bytes
toy_secret i = i ∷ replicate 31 0

abbrev pub toy_sig : ℕ → Bytes
toy_sig i = i ∷ replicate 3308 0

abbrev sign_as : Bytes → Option Bytes
sign_as [] = none
sign_as (i ∷ rest) = some (toy_sig i)

abbrev pub toy_lib : Mldsa
toy_lib = record {
  new_public_key = λ pk. true;
  verifies = λ pk msg sig. same_head pk sig;
  new_private_key = λ sk. true;
  sign_deterministic = λ sk msg. sign_as sk;
}

abbrev pub toy_codec : Codec
toy_codec = record {
  marshal_payload = λ p. some p.submitter;
  marshal_entry = λ k. some k.label;
  blake3 = λ b. b;
}

abbrev pub toy_hash : HashCodec
toy_hash = record {
  sha256 = λ b. 9 ∷ [];
  blake3 = λ b. b;
  anchored_cbor = λ es. [];
  quorum_cbor = λ q. [];
}

abbrev pub rotation : Bytes → ℕ → ℕ → ℕ → ℕ → KeyRotationEntry
rotation who old_key new_key effective expiry = record {
  hash = key_rotation_label;
  submitter = who;
  timestamp = pos 0;
  label = key_rotation_label;
  new_public_key = toy_key new_key;
  new_vrf_public_key = [];
  effective_cycle = effective;
  expiry_cycle = expiry;
  signature_old = toy_sig old_key;
  signature_new = toy_sig new_key;
}

abbrev pub toy_peer : ℕ → Peer
toy_peer i = record {
  root_id = i ∷ [];
  public_key = toy_key i;
  vrf_public_key = [];
  contract_hash = [];
  addr = [];
  alive = true;
}

abbrev pub four_peers : List Peer
four_peers = toy_peer 1 ∷ toy_peer 2 ∷ toy_peer 3 ∷ toy_peer 4 ∷ []

-- A candidate block, with the hash that the toy digest gives.
abbrev pub candidate : Block
candidate = record {
  index = 0;
  prev_hash = [];
  state_root = [];
  proposer = 1 ∷ [];
  anchored = some [];
  lambda1 = 0;
  timestamp = pos 5;
  validators = [];
  quorum = record { total_validators = pos 4; required_sigs = pos 3 };
  block_hash = 9 ∷ [];
  protocol_version = 2;
  prepare_sigs_bitmap = none;
  prepare_sigs = none;
  commit_sig = [];
  external_anchors = [];
  key_rotation_epoch = 0;
  legacy_anchor = [];
  metadata = none;
}

-- The signatures of peers 1, 2 and 4, by hexadecimal name.
abbrev pub three_sigs : Table Bytes Bytes
three_sigs =
    (b'0' ∷ b'1' ∷ [], toy_sig 1)
    ∷ (b'0' ∷ b'2' ∷ [], toy_sig 2)
    ∷ (b'0' ∷ b'4' ∷ [], toy_sig 4)
    ∷ []
