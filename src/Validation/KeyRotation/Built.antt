-- ===== src/Validation/KeyRotation/Built.antt =====
-- What pkg/chain builds, the validator admits.
use gleipnir.Prelude.{
  ℕ, ◌≤◌, ◌≡◌, refl, subst, true, Bytes, bytes_eq, bytes_beq_refl, some, List, [], ◌∷◌, arith,
  length, Has, inl, inr, Option-cases,
}
use gleipnir.Prelude.Int.{ℤ}
use gleipnir.Prelude.Words.{add64}
use gleipnir.Prelude.Table.{lookup}
use gleipnir.Prelude.Results.{ok}
use gleipnir.Identity.Dilithium.{Mldsa, verify_dilithium, sign_dilithium, signature_size}
use gleipnir.Chain.KeyRotation.{
  KeyRotationEntry, Codec, key_rotation_label, payload, payload_bytes, compute_hash, verify_hash,
  entry_shell, sign_with_current_key, new_entry,
}
use gleipnir.Validation.KeyRotation.{
  Validator, validate, verifies_under, active_keys, rotations_of, authorising_cycle,
  last_rotation_cycle,
}
use gleipnir.Validation.KeyRotation.Rules.{Newer, validate_iff}

-- Whatever the secret key signs at full length verifies under the public key, as FIPS 204 promises
-- of a key pair.
abbrev pub SignsFor : Mldsa → Bytes → Bytes → Type 0
SignsFor lib sk pk =
    (msg : Bytes)
    → length (sign_dilithium lib sk msg) ≡ signature_size
    → verify_dilithium lib pk msg (sign_dilithium lib sk msg) ≡ true

module _ (lib : Mldsa) (codec : Codec) where
  -- A well-formed entry that both keys have signed.
  record Built (current_sk new_sk new_pk : Bytes) (e : KeyRotationEntry) : Type 0 where
    labelled : e.label ≡ key_rotation_label
    committed : verify_hash codec e ≡ true
    bytes : Bytes
    encoded : payload_bytes codec e ≡ some bytes
    incoming : e.new_public_key ≡ new_pk
    old_signed : e.signature_old ≡ sign_dilithium lib current_sk bytes
    new_signed : e.signature_new ≡ sign_dilithium lib new_sk bytes
    old_size : length e.signature_old ≡ signature_size
    new_size : length e.signature_new ≡ signature_size

  stamped : KeyRotationEntry → KeyRotationEntry
  stamped k = record k { hash = compute_hash codec k }

  stamped-verify_hash : (k : KeyRotationEntry) → verify_hash codec (stamped k) ≡ true
  unfolding stamped verify_hash compute_hash
  stamped-verify_hash k = bytes_beq_refl _

  module _ (submitter current_sk new_pk new_vrf_pk new_sk : Bytes) (effective expiry : ℕ)
      (ts : ℤ) where
    shell : KeyRotationEntry
    shell = entry_shell submitter new_pk new_vrf_pk effective expiry ts

    both_signed : Bytes → KeyRotationEntry
    unfolding shell
    both_signed bytes = record shell {
      signature_new = sign_dilithium lib new_sk bytes;
      signature_old = sign_dilithium lib current_sk bytes;
    }

    new_entry_lem :
        (bytes : Bytes) (e : KeyRotationEntry)
        → payload_bytes codec shell ≡ some bytes
        → new_entry lib codec submitter current_sk new_pk new_vrf_pk new_sk effective expiry ts
          ≡ ok e
        → (stamped (both_signed bytes) ≡ e)
          × (length (sign_dilithium lib current_sk bytes) ≡ signature_size)
          × (length (sign_dilithium lib new_sk bytes) ≡ signature_size)
    unfolding new_entry sign_with_current_key both_signed shell stamped payload_bytes payload
    new_entry_lem bytes e p h = (ground arith, ground arith, ground arith)

    both_signed-Built :
        (bytes : Bytes)
        → payload_bytes codec shell ≡ some bytes
        → length (sign_dilithium lib current_sk bytes) ≡ signature_size
        → length (sign_dilithium lib new_sk bytes) ≡ signature_size
        → Built current_sk new_sk new_pk (stamped (both_signed bytes))
    unfolding both_signed shell stamped payload_bytes payload entry_shell
    both_signed-Built bytes p old new = record {
      labelled = refl;
      committed = stamped-verify_hash (both_signed bytes);
      bytes = bytes;
      encoded = p;
      incoming = refl;
      old_signed = refl;
      new_signed = refl;
      old_size = old;
      new_size = new;
    }

    new_entry-Built :
        (e : KeyRotationEntry)
        → new_entry lib codec submitter current_sk new_pk new_vrf_pk new_sk effective expiry ts
          ≡ ok e
        → Built current_sk new_sk new_pk e
    unfolding new_entry shell
    new_entry-Built e h = elim (Option-cases (payload_bytes codec shell)) [
      | inl p ↦ absurd (ground arith)
      | inr (bytes, p) ↦
          let l = new_entry_lem bytes e p h in
          subst (Built current_sk new_sk new_pk) l.0 (both_signed-Built bytes p l.1 l.2)
    ]

  verifies_under-Has :
      (pk msg sig : Bytes) (keys : List Bytes)
      → Has pk keys
      → verify_dilithium lib pk msg sig ≡ true
      → verifies_under lib keys msg sig ≡ true
  unfolding verifies_under
  verifies_under-Has pk msg sig [] m h = elim m [ ]
  verifies_under-Has pk msg sig (k ∷ ks) m h = ground (arith, verifies_under-Has pk msg sig ks)

  -- An entry that NewKeyRotationEntry builds is accepted by `validate` where its submitter is known,
  -- the current key is authoritative in the cycle before the entry takes effect, each secret key
  -- signs for its public key, and the entry keeps lead time, overlap and the order of the history.
  pub new_entry-validate :
      (v : Validator) (submitter current_sk new_pk new_vrf_pk new_sk : Bytes) (effective expiry : ℕ)
      (ts : ℤ) (e : KeyRotationEntry) (registered current_pk : Bytes)
      → new_entry lib codec submitter current_sk new_pk new_vrf_pk new_sk effective expiry ts ≡ ok e
      → lookup e.submitter v.validators ≡ some registered
      → Has current_pk (active_keys registered (rotations_of v e.submitter) (authorising_cycle e))
      → SignsFor lib current_sk current_pk
      → SignsFor lib new_sk new_pk
      → add64 v.current_cycle v.lead_time ≤ e.effective_cycle
      → add64 e.effective_cycle v.min_overlap ≤ e.expiry_cycle
      → Newer (last_rotation_cycle v e.submitter) e.effective_cycle
      → validate lib codec v (some e) ≡ ok tt
  new_entry-validate v submitter current_sk new_pk new_vrf_pk new_sk effective expiry ts e
        registered current_pk h known active old_pair new_pair lead overlap newer =
      let b =
        new_entry-Built submitter current_sk new_pk new_vrf_pk new_sk effective expiry ts e h in
      (validate_iff lib codec v e).1 (record {
        labelled = b.labelled;
        committed = b.committed;
        bytes = b.bytes;
        encoded = b.encoded;
        registered = registered;
        known = known;
        old_size = b.old_size;
        new_size = b.new_size;
        authorised =
            verifies_under-Has current_pk b.bytes e.signature_old _ active
              (ground (arith, b.old_signed, b.old_size, old_pair b.bytes));
        possessed = ground (arith, b.new_signed, b.new_size, b.incoming, new_pair b.bytes);
        announced = lead;
        overlapping = overlap;
        newer = newer;
      })
