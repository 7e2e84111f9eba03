-- ===== src/Transport.antt =====
-- pkg/transport/secure_conn.go: the connection of two nodes. What arrives is the list of all bytes
-- that the other side writes; a read that they are too few for fails. A write does not fail.
pub mod Frames
pub mod Handshake
pub mod P2p
use gleipnir.Prelude.{
  ℕ, zero, suc, ◌+◌, ◌-◌, ◌*◌, Bool, true, false, not, Bytes, codes, Option, none, some, List, [],
  ◌∷◌, ◌++◌, length, ltb, nat_beq, if◌then◌else◌,
}
use gleipnir.Prelude.Words.{be_bytes}
use gleipnir.Prelude.Results.{Result, ok, err, guard, or_fail, ◌>>=◌, ◌>>◌}

-- The ciphers: HKDF over SHA-256, ChaCha20-Poly1305 under a key, and Kyber1024 of CIRCL.
pub record Ciphers : Type 0 where
  pub hkdf : Bytes → Bytes → Bytes → Bytes
  pub new_aead : Bytes → Bool
  pub seal : Bytes → Bytes → Bytes → Bytes
  pub opened : Bytes → Bytes → Bytes → Option Bytes
  pub encapsulate_to : Bytes → Bytes → Bytes × Bytes
  pub decapsulate_to : Bytes → Bytes → Bytes

abbrev pub nonce_size : ℕ
nonce_size = 12

abbrev pub max_frame_size : ℕ
max_frame_size = 1024 * 1024 + 12

pub data TransportError : Type 0 where
  unexpected_eof frame_too_large no_randomness open_failed : TransportError
  invalid_key invalid_ciphertext bad_aead_key slice_out_of_range : TransportError

-- io.ReadFull: the first bytes, and what is left.
unfoldable pub read_full : ℕ → Bytes → Option (Bytes × Bytes)
read_full zero bs = some ([], bs)
read_full (suc n) [] = none
read_full (suc n) (b ∷ bs) = elim (read_full n bs) [
  | none ↦ none
  | some (taken, rest) ↦ some (b ∷ taken, rest)
]

-- binary.BigEndian.Uint32
unfoldable pub be_value : ℕ → Bytes → ℕ
be_value acc [] = acc
be_value acc (b ∷ bs) = be_value (acc * 256 + b) bs

-- WriteMessage: the frame that it writes, with the nonce that rand.Read gives.
unfoldable pub write_message : Ciphers → Bytes → Option Bytes → Bytes → Result TransportError Bytes
write_message lib key random bytes = do
  guard (not (ltb (max_frame_size - nonce_size) (length bytes))) frame_too_large
  nonce ← or_fail random no_randomness
  let ct = lib.seal key nonce bytes
  ok (be_bytes 4 (nonce_size + length ct) ++ (nonce ++ ct))

-- The part of ReadMessage behind the frame: its two slices panic where the nonce does not fit.
unfoldable pub open_frame : Ciphers → Bytes → Bytes → Result TransportError Bytes
open_frame lib key frame = elim (read_full nonce_size frame) [
  | none ↦ err slice_out_of_range
  | some (nonce, ct) ↦ or_fail (lib.opened key nonce ct) open_failed
]

-- ReadMessage: the message, and the bytes behind its frame.
unfoldable pub read_message : Ciphers → Bytes → Bytes → Result TransportError (Bytes × Bytes)
unfolding open_frame
read_message lib key bs = do
  header ← or_fail (read_full 4 bs) unexpected_eof
  let frame_len = be_value 0 header.0
  guard (not (ltb max_frame_size frame_len)) frame_too_large
  body ← or_fail (read_full frame_len header.1) unexpected_eof
  message ← open_frame lib key body.0
  ok (message, body.1)

-- padPeerID: the first 32 bytes of the identifier, and zeroes.
unfoldable pub padded : ℕ → Bytes → Bytes
padded zero id = []
padded (suc n) [] = 0 ∷ padded n []
padded (suc n) (b ∷ bs) = b ∷ padded n bs

unfoldable pub trim_peer_id : Bytes → Bytes
trim_peer_id [] = []
trim_peer_id (c ∷ cs) = if nat_beq c 0 then [] else c ∷ trim_peer_id cs

-- a < b on strings.
unfoldable pub str_less : Bytes → Bytes → Bool
str_less a [] = false
str_less [] (b ∷ bs) = true
str_less (a ∷ as') (b ∷ bs) = if ltb a b then true else if ltb b a then false else str_less as' bs

-- deriveKey
unfoldable pub derive_key : Ciphers → Bytes → Bytes → Bytes → Bytes
derive_key lib secret id1 id2 =
    lib.hkdf secret (codes "gleipnir-kem-v1") (if str_less id2 id1 then id2 ++ id1 else id1 ++ id2)

abbrev pub kyber_public_key_size : ℕ
kyber_public_key_size = 1568

abbrev pub kyber_secret_key_size : ℕ
kyber_secret_key_size = 3168

abbrev pub kyber_ciphertext_size : ℕ
kyber_ciphertext_size = 1568

-- Encapsulate and Decapsulate of pkg/identity/kyber.go.
unfoldable pub encapsulate : Ciphers → Bytes → Bytes → Result TransportError (Bytes × Bytes)
encapsulate lib public_key seed = do
  guard (nat_beq (length public_key) kyber_public_key_size) invalid_key
  ok (lib.encapsulate_to public_key seed)

unfoldable pub decapsulate : Ciphers → Bytes → Bytes → Result TransportError Bytes
decapsulate lib secret_key ciphertext = do
  guard (nat_beq (length secret_key) kyber_secret_key_size) invalid_key
  guard (nat_beq (length ciphertext) kyber_ciphertext_size) invalid_ciphertext
  ok (lib.decapsulate_to secret_key ciphertext)

-- PeerInfo; the handshake leaves its address empty.
pub record PeerInfo : Type 0 where
  pub peer_id : Bytes
  pub public_key : Bytes

-- A connection: the key of its cipher, and the peer. What was not read yet is still to come.
pub record Session : Type 0 where
  pub key : Bytes
  pub peer : PeerInfo
  pub unread : Bytes

-- One side: its identifier and its keys.
pub record Side : Type 0 where
  pub id : Bytes
  pub public_key : Bytes
  pub secret_key : Bytes

unfoldable pub hello : Side → Bytes
hello me = padded 32 me.id ++ me.public_key

unfoldable pub read_hello : Bytes → Result TransportError (PeerInfo × Bytes)
read_hello bs = do
  taken ← or_fail (read_full (32 + kyber_public_key_size) bs) unexpected_eof
  parts ← or_fail (read_full 32 taken.0) slice_out_of_range
  ok (record { peer_id = trim_peer_id parts.0; public_key = parts.1 }, taken.1)

unfoldable pub session : Ciphers → Side → Bytes → PeerInfo → Bytes → Result TransportError Session
session lib me secret peer unread = do
  let key = derive_key lib secret me.id peer.peer_id
  guard (lib.new_aead key) bad_aead_key
  ok (record { key = key; peer = peer; unread = unread })

-- kemHandshake: what each side writes, and how it ends.
abbrev pub Ending : Type 0
Ending = Bytes × Result TransportError Session

unfoldable pub client_handshake : Ciphers → Side → Bytes → Bytes → Ending
client_handshake lib me seed bs = elim (read_hello bs) [
  | err x ↦ (hello me, err x)
  | ok (peer, unread) ↦ elim (encapsulate lib peer.public_key seed) [
    | err x ↦ (hello me, err x)
    | ok (ct, secret) ↦ (hello me ++ ct, session lib me secret peer unread)
  ]
]

-- The ciphertext is read, and opened with the own key.
unfoldable pub read_secret : Ciphers → Side → Bytes → Result TransportError (Bytes × Bytes)
read_secret lib me bs = do
  ct ← or_fail (read_full kyber_ciphertext_size bs) unexpected_eof
  secret ← decapsulate lib me.secret_key ct.0
  ok (secret, ct.1)

unfoldable pub server_handshake : Ciphers → Side → Bytes → Ending
server_handshake lib me bs = elim (read_hello bs) [
  | err x ↦ ([], err x)
  | ok (peer, unread) ↦ elim (read_secret lib me unread) [
    | err x ↦ (hello me, err x)
    | ok (secret, after) ↦ (hello me, session lib me secret peer after)
  ]
]
