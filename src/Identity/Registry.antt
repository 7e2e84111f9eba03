-- ===== src/Identity/Registry.antt =====
-- pkg/identity/registry.go, without the database, which nothing opens, and the canonical payload of
-- pkg/identity/signature.go.
use gleipnir.Prelude.{Bool, not, Bytes, bytes_eq, none, some, ◌++◌, length, nat_beq, if◌then◌else◌}
use gleipnir.Prelude.Int.{ℤ}
use gleipnir.Prelude.Words.{le_bytes}
use gleipnir.Prelude.Table.{Table, lookup, insert}
use gleipnir.Prelude.Results.{Result, ok, err}
use gleipnir.Chain.BlockHash.{to_uint64}
use gleipnir.Identity.Dilithium.{Mldsa, verify_dilithium, public_key_size}

pub record Registry : Type 0 where
  pub cache : Table Bytes Bytes

pub data RegistryError : Type 0 where
  invalid_key_size identity_not_found : RegistryError

unfoldable pub register_identity : Registry → Bytes → Bytes → Result RegistryError Registry
register_identity r root_id pub_key =
    if not (nat_beq (length pub_key) public_key_size)
    then err invalid_key_size
    else ok (record r { cache = insert root_id pub_key r.cache })

unfoldable pub find_key : Registry → Bytes → Result RegistryError Bytes
find_key r root_id = elim (lookup root_id r.cache) [
  | none ↦ err identity_not_found
  | some pub_key ↦ ok pub_key
]

-- CanonicalPayload
unfoldable pub canonical_payload : Bytes → Bytes → ℤ → Bytes → Bytes
canonical_payload hash submitter timestamp label =
    hash ++ (submitter ++ (le_bytes 8 (to_uint64 timestamp) ++ label))

-- VerifySignature
unfoldable pub verify_signature : Mldsa → Bytes → Bytes → Bytes → ℤ → Bytes → Bytes → Bool
verify_signature lib pub_key hash submitter timestamp label signature =
    verify_dilithium lib pub_key (canonical_payload hash submitter timestamp label) signature
