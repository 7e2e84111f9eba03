-- ===== src/Transport/Handshake.antt =====
-- Agreement of the two sides of a handshake: kemHandshake with deriveKey.
use mathlib.Core.List.{append_assoc}
use gleipnir.Prelude.{
  ℕ, zero, suc, ◌+◌, ◌≤◌, ◌≡◌, refl, ap, inl, inr, Bool-cases, true, false, Bytes, [], ◌∷◌, ◌++◌,
  length, nat_beq, arith, length-append, All,
}
use gleipnir.Prelude.Results.{ok}
use gleipnir.Transport.{
  Ciphers, PeerInfo, Side, padded, trim_peer_id, str_less, derive_key, kyber_public_key_size,
  kyber_secret_key_size, kyber_ciphertext_size, encapsulate, decapsulate, hello, read_hello,
  session, client_handshake, read_secret, server_handshake,
}
use gleipnir.Transport.Frames.{read_full-append}

-- An identifier that padPeerID keeps.
pub record IsPeerId (id : Bytes) : Type 0 where
  pub fits : length id ≤ 32
  pub no_zero : All (λ b. nat_beq b 0 ≡ false) id

length-padded : (n : ℕ) (id : Bytes) → length (padded n id) ≡ n
unfolding padded
length-padded zero id = refl
length-padded (suc n) [] = ap suc (length-padded n [])
length-padded (suc n) (b ∷ bs) = ap suc (length-padded n bs)

trim-padded :
    (n : ℕ) (id : Bytes)
    → length id ≤ n
    → All (λ b. nat_beq b 0 ≡ false) id
    → trim_peer_id (padded n id) ≡ id
unfolding padded trim_peer_id
trim-padded zero [] fits h = refl
trim-padded zero (b ∷ bs) fits h = absurd (omega arith)
trim-padded (suc n) [] fits h = refl
trim-padded (suc n) (b ∷ bs) fits h = rw (h.0, trim-padded n bs (omega arith) h.1) refl

str_less_asym : (a b : Bytes) → str_less a b ≡ true → str_less b a ≡ false
unfolding str_less
str_less_asym [] [] h = refl
str_less_asym [] (b ∷ bs) h = refl
str_less_asym (a ∷ as') [] h = ground arith
str_less_asym (a ∷ as') (b ∷ bs) h = ground (arith, str_less_asym as' bs)

str_less_total : (a b : Bytes) → str_less a b ≡ false → str_less b a ≡ false → a ≡ b
unfolding str_less
str_less_total [] [] h k = refl
str_less_total [] (b ∷ bs) h k = ground arith
str_less_total (a ∷ as') [] h k = ground arith
str_less_total (a ∷ as') (b ∷ bs) h k = ground (arith, str_less_total as' bs)

-- The two sides name the identifiers in opposite orders.
derive_key_sym :
    (lib : Ciphers) (secret a b : Bytes) → derive_key lib secret a b ≡ derive_key lib secret b a
unfolding derive_key
derive_key_sym lib secret a b = elim (Bool-cases (str_less a b)) [
  | inl less ↦ rw (derive_key, less, str_less_asym a b less) refl
  | inr not_less ↦ elim (Bool-cases (str_less b a)) [
    | inl more ↦ rw (derive_key, not_less, more) refl
    | inr not_more ↦ rw (str_less_total a b not_less not_more) refl
  ]
]

read_hello-hello :
    (s : Side) (rest : Bytes)
    → IsPeerId s.id
    → length s.public_key ≡ kyber_public_key_size
    → read_hello (hello s ++ rest) ≡ ok (record { peer_id = s.id; public_key = s.public_key }, rest)
unfolding hello read_hello
read_hello-hello s rest id size =
    let id_size = length-padded 32 s.id in
    let all : length (padded 32 s.id ++ s.public_key) ≡ 32 + kyber_public_key_size =
      omega (arith, id_size, size, length-append (padded 32 s.id) s.public_key) in
    rw
      (
        read_full-append (32 + kyber_public_key_size) (padded 32 s.id ++ s.public_key) rest all,
        read_full-append 32 (padded 32 s.id) s.public_key id_size,
        trim-padded 32 s.id id.fits id.no_zero,
      )
      refl

abbrev public_part : Side → PeerInfo
public_part s = record { peer_id = s.id; public_key = s.public_key }

module _ (lib : Ciphers) (client server : Side) (seed : Bytes) where
  abbrev ciphertext : Bytes
  ciphertext = (lib.encapsulate_to server.public_key seed).0

  abbrev shared_key : Bytes
  shared_key = derive_key lib (lib.encapsulate_to server.public_key seed).1 client.id server.id

  encapsulate_lem :
      length server.public_key ≡ kyber_public_key_size
      → encapsulate lib server.public_key seed ≡ ok (lib.encapsulate_to server.public_key seed)
  unfolding encapsulate
  encapsulate_lem size = ground arith

  client_side :
      (unread : Bytes)
      → IsPeerId server.id
      → length server.public_key ≡ kyber_public_key_size
      → lib.new_aead shared_key ≡ true
      → client_handshake lib client seed (hello server ++ unread) ≡ (
        hello client ++ ciphertext,
        ok (record { key = shared_key; peer = public_part server; unread = unread }),
      )
  unfolding client_handshake session
  client_side unread id size key =
      rw (client_handshake, read_hello-hello server unread id size, encapsulate_lem size, key) refl

  -- What Kyber1024 promises of a key pair and this seed.
  pub record Decapsulates : Type 0 where
    pub size : length ciphertext ≡ kyber_ciphertext_size
    pub same :
        lib.decapsulate_to server.secret_key ciphertext
        ≡ (lib.encapsulate_to server.public_key seed).1

  read_secret_lem :
      (unread : Bytes)
      → length server.secret_key ≡ kyber_secret_key_size
      → Decapsulates
      → read_secret lib server (ciphertext ++ unread)
        ≡ ok ((lib.encapsulate_to server.public_key seed).1, unread)
  unfolding read_secret decapsulate
  read_secret_lem unread size d =
      rw (read_full-append kyber_ciphertext_size ciphertext unread d.size, size, d.size, d.same)
        refl

  server_side :
      (unread : Bytes)
      → IsPeerId client.id
      → length client.public_key ≡ kyber_public_key_size
      → length server.secret_key ≡ kyber_secret_key_size
      → Decapsulates
      → lib.new_aead shared_key ≡ true
      → server_handshake lib server ((hello client ++ ciphertext) ++ unread) ≡ (
        hello server,
        ok (record { key = shared_key; peer = public_part client; unread = unread }),
      )
  unfolding server_handshake session
  server_side unread id size secret_size d key =
      rw
        (
          append_assoc (hello client) ciphertext unread,
          server_handshake,
          read_hello-hello client (ciphertext ++ unread) id size,
          read_secret_lem unread secret_size d,
          derive_key_sym lib (lib.encapsulate_to server.public_key seed).1 server.id client.id,
          key,
        )
        refl

  -- Where each side reads what the other one writes, both handshakes succeed, with the same key, and
  -- each side knows the other's identifier and public key. The identifiers have at most 32 bytes and
  -- no zero byte, the keys are of Kyber1024's sizes, and what follows stays unread.
  pub handshake_agrees :
      (unread unread' : Bytes)
      → IsPeerId client.id
      → IsPeerId server.id
      → length client.public_key ≡ kyber_public_key_size
      → length server.public_key ≡ kyber_public_key_size
      → length server.secret_key ≡ kyber_secret_key_size
      → Decapsulates
      → lib.new_aead shared_key ≡ true
      → (key from_client from_server : Bytes) × (client_handshake lib client seed
            (from_server ++ unread)
          ≡ (from_client, ok (record { key = key; peer = public_part server; unread = unread })))
        × (server_handshake lib server (from_client ++ unread')
            ≡ (from_server, ok (record { key = key; peer = public_part client; unread = unread' })))
  handshake_agrees unread unread' c s csize ssize secret_size d key = (
    shared_key,
    hello client ++ ciphertext,
    hello server,
    client_side unread s ssize key,
    server_side unread' c csize secret_size d key,
  )
