-- ===== src/Consensus/Quorum/Counting.antt =====
-- What `verify_quorum` has counted when it accepts.
use gleipnir.Prelude.{
  ℕ, ◌+◌, ◌*◌, ◌≤◌, ◌<◌, ◌≡◌, refl, inl, inr, true, false, Bytes, some, List, [], ◌∷◌, arith,
  length, Has, All, Option-cases, Bool-cases, bytes_eq,
}
use gleipnir.Prelude.Int.{ℤ, pos, negsuc, ltb_ℤ}
use gleipnir.Prelude.Results.{ok}
use gleipnir.Identity.Dilithium.{Mldsa, verify_dilithium}
use gleipnir.Chain.{QuorumConfig}
use gleipnir.Consensus.Quorum.{
  quorum_required, contains, find_signer, count_signers, verify_quorum, is_empty,
}

-- The quorum is the least number that is two thirds of the validators or more.
pub quorum_required_ceil :
    (n : ℕ) → (2 * n ≤ 3 * quorum_required n) × (3 * quorum_required n < 2 * n + 3)
unfolding quorum_required
quorum_required_ceil n = omega arith

-- No key stands twice.
abbrev pub Distinct : List Bytes → Type 0
Distinct [] = Unit
Distinct (k ∷ ks) = (contains ks k ≡ false) × Distinct ks

abbrev pub AtLeast : ℕ → ℤ → Type 0
AtLeast n (pos m) = m ≤ n
AtLeast n (negsuc m) = Unit

module _ (lib : Mldsa) (block_hash : Bytes) where
  -- The key is one of `pub_keys`, and a signature of `sigs` verifies under it.
  pub record HasSigned (sigs pub_keys : List Bytes) (k : Bytes) : Type 0 where
    pub key_listed : Has k pub_keys
    pub sig : Bytes
    pub sig_listed : Has sig sigs
    pub verified : verify_dilithium lib k block_hash sig ≡ true

  find_signer_lem :
      (used : List Bytes) (sig k : Bytes) (pks : List Bytes)
      → find_signer lib block_hash used sig pks ≡ some k
      → Has k pks × (contains used k ≡ false) × (verify_dilithium lib k block_hash sig ≡ true)
  unfolding find_signer
  find_signer_lem used sig k [] h = cc
  find_signer_lem used sig k (pk ∷ pks) h = ground (arith, find_signer_lem used sig k pks)

  -- The keys that the loop has used, as often as it has counted.
  record Counted (sigs pub_keys : List Bytes) (r : List Bytes × ℕ) : Type 0 where
    counted : r.1 ≡ length r.0
    distinct : Distinct r.0
    signed : All (HasSigned sigs pub_keys) r.0

  count_signers-Counted :
      (every pub_keys used : List Bytes) (n : ℕ) (sigs : List Bytes)
      → ((s : Bytes) → Has s sigs → Has s every)
      → Counted every pub_keys (used, n)
      → Counted every pub_keys (count_signers lib block_hash used n sigs pub_keys)
  unfolding count_signers
  count_signers-Counted every pub_keys used n [] among c = c
  count_signers-Counted every pub_keys used n (sig ∷ sigs) among c =
      elim (Bool-cases (is_empty sig)) [
        | inl skip ↦
            rw skip (count_signers-Counted every pub_keys used n sigs (λ s h. among s (inr h)) c)
        | inr full ↦ elim (Option-cases (find_signer lib block_hash used sig pub_keys)) [
          | inl missed ↦
              rw (full, missed)
                (count_signers-Counted every pub_keys used n sigs (λ s h. among s (inr h)) c)
          | inr (k, found) ↦
              rw (full, found)
                (count_signers-Counted every pub_keys (k ∷ used) (n + 1) sigs
                  (λ s h. among s (inr h)) (extended k (find_signer_lem used sig k pub_keys found)))
        ]
      ]
    where
      extended :
          (k : Bytes)
          → Has k pub_keys
            × (contains used k ≡ false)
            × (verify_dilithium lib k block_hash sig ≡ true)
          → Counted every pub_keys (k ∷ used, n + 1)
      extended k h = record {
        counted = omega (arith, c.counted);
        distinct = (h.1, c.distinct);
        signed = (
          record { key_listed = h.0; sig = sig; sig_listed = among sig (inl refl); verified = h.2 },
          c.signed,
        );
      }

  pub count_signers-counted :
      (sigs pub_keys : List Bytes)
      → (count_signers lib block_hash [] 0 sigs pub_keys).1
        ≡ length (count_signers lib block_hash [] 0 sigs pub_keys).0
  count_signers-counted sigs pub_keys =
      (count_signers-Counted sigs pub_keys [] 0 sigs (λ s m. m)
        (record { counted = refl; distinct = tt; signed = tt })).counted

  -- A quorum: distinct listed keys, as many as required, under each of which a given signature of
  -- the block hash verifies.
  pub record IsQuorum (sigs pub_keys : List Bytes) (q : QuorumConfig) : Type 0 where
    pub keys : List Bytes
    pub distinct : Distinct keys
    pub signed : All (HasSigned sigs pub_keys) keys
    pub enough : AtLeast (length keys) q.required_sigs

  -- When `verify_quorum` accepts, a quorum has signed: no key is counted twice.
  pub verify_quorum_sound :
      (sigs pub_keys : List Bytes) (q : QuorumConfig)
      → verify_quorum lib block_hash sigs pub_keys q ≡ ok tt
      → IsQuorum sigs pub_keys q
  unfolding verify_quorum
  verify_quorum_sound sigs pub_keys q h =
      let c =
        count_signers-Counted sigs pub_keys [] 0 sigs (λ s m. m)
          (record { counted = refl; distinct = tt; signed = tt }) in
      record {
        keys = (count_signers lib block_hash [] 0 sigs pub_keys).0;
        distinct = c.distinct;
        signed = c.signed;
        enough = enough_of q.required_sigs _ _ c.counted (ground arith);
      }
    where
      enough_of : (z : ℤ) (n m : ℕ) → n ≡ m → ltb_ℤ (pos n) z ≡ false → AtLeast m z
      enough_of (pos a) n m e t = ground arith
      enough_of (negsuc a) n m e t = tt
