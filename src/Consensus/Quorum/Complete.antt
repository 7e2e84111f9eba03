-- ===== src/Consensus/Quorum/Complete.antt =====
-- A quorum that has signed is found, where no signature verifies under two keys.
use gleipnir.Prelude.{
  ℕ, suc, ◌+◌, ◌≤◌, ◌≡◌, refl, subst, ◌↔◌, inl, inr, true, false, Bytes, some, List, [], ◌∷◌, arith,
  length, Has, All, Option-cases, Bool-cases, if◌then◌else◌, bytes_beq_iff, bytes_beq_refl,
  bytes_eq, ◌==◌,
}
use gleipnir.Prelude.Int.{ℤ, pos, negsuc}
use gleipnir.Prelude.Results.{ok}
use gleipnir.Identity.Dilithium.{Mldsa, verify_dilithium, verify_dilithium_sizes}
use gleipnir.Chain.{QuorumConfig, is_valid}
use gleipnir.Consensus.Quorum.{contains, find_signer, count_signers, verify_quorum, is_empty}
use gleipnir.Consensus.Quorum.Counting.{
  Distinct, HasSigned, IsQuorum, AtLeast, count_signers-counted, verify_quorum_sound,
}

erase : Bytes → List Bytes → List Bytes
erase k [] = []
erase k (x ∷ xs) = if x == k then xs else x ∷ erase k xs

length-erase :
    (k : Bytes) (xs : List Bytes) → contains xs k ≡ true → length xs ≡ suc (length (erase k xs))
unfolding erase contains
length-erase k [] h = cc
length-erase k (x ∷ xs) h = ground (arith, length-erase k xs)

contains-erase :
    (k j : Bytes) (xs : List Bytes)
    → (k == j) ≡ false
    → contains xs j ≡ true
    → contains (erase k xs) j ≡ true
unfolding erase contains
contains-erase k j [] h m = cc
contains-erase k j (x ∷ xs) h m =
    ground (arith, contains-erase k j xs h, bytes_beq_iff x k, bytes_beq_iff x j, bytes_beq_iff k j)

-- Every key of `ks` is one of `used`.
abbrev Covered : List Bytes → List Bytes → Type 0
Covered used ks = All (λ k. contains used k ≡ true) ks

Covered-erase :
    (k : Bytes) (used ks : List Bytes)
    → contains ks k ≡ false
    → Covered used ks
    → Covered (erase k used) ks
unfolding contains
Covered-erase k used [] h c = tt
Covered-erase k used (j ∷ ks) h c = (
  contains-erase k j used (ground (arith, bytes_beq_iff k j, bytes_beq_iff j k)) c.0,
  Covered-erase k used ks (ground arith) c.1,
)

-- Distinct keys that are all among `used` are no more than `used` has.
length-le_of_Covered :
    (used ks : List Bytes) → Distinct ks → Covered used ks → length ks ≤ length used
length-le_of_Covered used [] d c = omega arith
length-le_of_Covered used (k ∷ ks) d c = omega (
  arith,
  length-erase k used c.0,
  length-le_of_Covered (erase k used) ks d.1 (Covered-erase k used ks d.0 c.1),
)

module _ (lib : Mldsa) (block_hash : Bytes) where
  -- No signature of the block hash verifies under two keys.
  abbrev pub OneKey : Type 0
  OneKey =
      (k j s : Bytes)
      → verify_dilithium lib k block_hash s ≡ true
      → verify_dilithium lib j block_hash s ≡ true
      → k ≡ j

  module _ (one : OneKey) where
    find_signer-found :
        (used : List Bytes) (sig k : Bytes) (pks : List Bytes)
        → Has k pks
        → contains used k ≡ false
        → verify_dilithium lib k block_hash sig ≡ true
        → find_signer lib block_hash used sig pks ≡ some k
    unfolding find_signer
    find_signer-found used sig k [] m u h = elim m [ ]
    find_signer-found used sig k (pk ∷ pks) m u h = ground (
      arith,
      one pk k sig,
      verify_dilithium_sizes lib k block_hash sig h,
      find_signer-found used sig k pks,
    )

    count_signers-keeps :
        (pks used : List Bytes) (n : ℕ) (sigs : List Bytes) (k : Bytes)
        → contains used k ≡ true
        → contains (count_signers lib block_hash used n sigs pks).0 k ≡ true
    unfolding count_signers contains
    count_signers-keeps pks used n [] k h = h
    count_signers-keeps pks used n (sig ∷ sigs) k h = elim (Bool-cases (is_empty sig)) [
      | inl skip ↦ rw skip (count_signers-keeps pks used n sigs k h)
      | inr full ↦ elim (Option-cases (find_signer lib block_hash used sig pks)) [
        | inl missed ↦ rw (full, missed) (count_signers-keeps pks used n sigs k h)
        | inr (j, found) ↦
            rw (full, found) (count_signers-keeps pks (j ∷ used) (n + 1) sigs k (ground arith))
      ]
    ]

    count_signers-step :
        (pks used : List Bytes) (n : ℕ) (sig : Bytes) (sigs : List Bytes) (k : Bytes)
        → ((used' : List Bytes) (n' : ℕ)
            → contains (count_signers lib block_hash used' n' sigs pks).0 k ≡ true)
        → contains (count_signers lib block_hash used n (sig ∷ sigs) pks).0 k ≡ true
    unfolding count_signers
    count_signers-step pks used n sig sigs k later = elim (Bool-cases (is_empty sig)) [
      | inl skip ↦ rw skip (later used n)
      | inr full ↦ elim (Option-cases (find_signer lib block_hash used sig pks)) [
        | inl missed ↦ rw (full, missed) (later used n)
        | inr (j, found) ↦ rw (full, found) (later (j ∷ used) (n + 1))
      ]
    ]

    count_signers-head :
        (pks used : List Bytes) (n : ℕ) (sig : Bytes) (sigs : List Bytes) (k : Bytes)
        → Has k pks
        → verify_dilithium lib k block_hash sig ≡ true
        → contains (count_signers lib block_hash used n (sig ∷ sigs) pks).0 k ≡ true
    unfolding count_signers contains
    count_signers-head pks used n sig sigs k m h =
        let full : is_empty sig ≡ false =
          ground (arith, verify_dilithium_sizes lib k block_hash sig h) in
        elim (Bool-cases (contains used k)) [
          | inl old ↦ count_signers-keeps pks used n (sig ∷ sigs) k old
          | inr new ↦
              rw (full, find_signer-found used sig k pks m new h)
                (count_signers-keeps pks (k ∷ used) (n + 1) sigs k
                  (ground (arith, bytes_beq_refl k)))
        ]

    count_signers-finds :
        (pks used : List Bytes) (n : ℕ) (sigs : List Bytes) (k sig : Bytes)
        → Has k pks
        → verify_dilithium lib k block_hash sig ≡ true
        → Has sig sigs
        → contains (count_signers lib block_hash used n sigs pks).0 k ≡ true
    count_signers-finds pks used n [] k sig m h s = elim s [ ]
    count_signers-finds pks used n (s ∷ sigs) k sig m h (inl e) =
        count_signers-head pks used n s sigs k m
          (subst (λ x. verify_dilithium lib k block_hash x ≡ true) e h)
    count_signers-finds pks used n (s ∷ sigs) k sig m h (inr rest) =
        count_signers-step pks used n s sigs k
          (λ used' n'. count_signers-finds pks used' n' sigs k sig m h rest)

    signers-Covered :
        (pks sigs ks : List Bytes)
        → All (HasSigned lib block_hash sigs pks) ks
        → Covered (count_signers lib block_hash [] 0 sigs pks).0 ks
    signers-Covered pks sigs [] a = tt
    signers-Covered pks sigs (k ∷ ks) a = (
      count_signers-finds pks [] 0 sigs k a.0.sig a.0.key_listed a.0.verified a.0.sig_listed,
      signers-Covered pks sigs ks a.1,
    )

    -- Where no signature verifies under two keys, `verify_quorum` accepts exactly when the
    -- configuration is valid and a quorum of distinct listed keys has signed.
    pub verify_quorum_iff :
        (sigs pub_keys : List Bytes) (q : QuorumConfig)
        → (verify_quorum lib block_hash sigs pub_keys q ≡ ok tt)
          ↔ ((is_valid q ≡ true) × IsQuorum lib block_hash sigs pub_keys q)
    unfolding verify_quorum
    verify_quorum_iff sigs pub_keys q = (
      λ h. (ground arith, verify_quorum_sound lib block_hash sigs pub_keys q h),
      λ v. accepted v.0 q.required_sigs refl v.1.enough (
          length-le_of_Covered _ v.1.keys v.1.distinct
            (signers-Covered pub_keys sigs v.1.keys v.1.signed)),
    )
      where
        result : List Bytes × ℕ
        result = count_signers lib block_hash [] 0 sigs pub_keys

        accepted :
            {n : ℕ}
            → is_valid q ≡ true
            → (z : ℤ) → q.required_sigs ≡ z
            → AtLeast n z
            → n ≤ length result.0
            → verify_quorum lib block_hash sigs pub_keys q ≡ ok tt
        accepted v (pos m) e enough covered =
            ground (arith, count_signers-counted lib block_hash sigs pub_keys)
        accepted v (negsuc m) e enough covered = ground arith
