-- ===== src/Identity/Dilithium.antt =====
-- pkg/identity/dilithium.go: ML-DSA-65 behind length checks. The standard library's crypto/mldsa is
-- a parameter: `new_public_key` and `new_private_key` say whether a key parses.
use gleipnir.Prelude.{
  ℕ, Bool, true, false, ◌≡◌, arith, Bytes, Option, none, some, [], length, nat_beq, if◌then◌else◌,
  not, ◌||◌,
}

abbrev pub public_key_size : ℕ
public_key_size = 1952

abbrev pub secret_key_size : ℕ
secret_key_size = 32

abbrev pub signature_size : ℕ
signature_size = 3309

-- crypto/mldsa
pub record Mldsa : Type 0 where
  pub new_public_key : Bytes → Bool
  pub verifies : Bytes → Bytes → Bytes → Bool
  pub new_private_key : Bytes → Bool
  pub sign_deterministic : Bytes → Bytes → Option Bytes

unfoldable pub verify_dilithium : Mldsa → Bytes → Bytes → Bytes → Bool
verify_dilithium lib pk msg sig =
    if not (nat_beq (length pk) public_key_size) || not (nat_beq (length sig) signature_size)
    then false
    else if not (lib.new_public_key pk)
    then false
    else lib.verifies pk msg sig

-- A nil result is the empty slice; callers look at its length only.
unfoldable pub sign_dilithium : Mldsa → Bytes → Bytes → Bytes
sign_dilithium lib sk msg =
    if not (nat_beq (length sk) secret_key_size)
    then []
    else if not (lib.new_private_key sk)
    then []
    else elim (lib.sign_deterministic sk msg) [ none ↦ [] | some sig ↦ sig ]

-- A signature that verifies has the size of ML-DSA-65, and so has its key.
pub verify_dilithium_sizes :
    (lib : Mldsa) (pk msg sig : Bytes)
    → verify_dilithium lib pk msg sig ≡ true
    → (length pk ≡ public_key_size) × (length sig ≡ signature_size)
unfolding verify_dilithium
verify_dilithium_sizes lib pk msg sig h = ground arith
