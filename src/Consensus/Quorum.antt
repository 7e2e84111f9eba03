-- ===== src/Consensus/Quorum.antt =====
-- pkg/consensus/quorum.go: M-of-N verification; and the quorum size of prepare.go.
pub mod Counting
pub mod Complete
use gleipnir.Prelude.{
  ℕ, zero, suc, ◌+◌, ◌*◌, ◌/◌, Bool, true, false, Bytes, Option, none, some, List, [], ◌∷◌, length,
  nat_beq, leb, if◌then◌else◌, ◌||◌, ◌==◌, bytes_eq,
}
use gleipnir.Prelude.Int.{ℤ, pos, ltb_ℤ}
use gleipnir.Prelude.Results.{Result, ok, err}
use gleipnir.Identity.Dilithium.{Mldsa, verify_dilithium}
use gleipnir.Chain.{QuorumConfig, is_valid}

-- ceil(2N/3), for N a length.
unfoldable pub quorum_required : ℕ → ℕ
quorum_required n = (2 * n + 2) / 3

pub data QuorumError : Type 0 where
  quorum_not_met : QuorumError

-- used[string(pk)], where every entry that is written is true.
unfoldable pub contains : List Bytes → Bytes → Bool
contains [] k = false
contains (x ∷ xs) k = x == k || contains xs k

abbrev is_empty : Bytes → Bool
is_empty b = nat_beq (length b) 0

module _ (lib : Mldsa) (block_hash : Bytes) where
  -- The loop over the keys: the first one not yet used under which the signature verifies.
  unfoldable pub find_signer : List Bytes → Bytes → List Bytes → Option Bytes
  find_signer used sig [] = none
  find_signer used sig (pk ∷ pks) =
      let rest = find_signer used sig pks in
      if is_empty pk || contains used pk
      then rest
      else if verify_dilithium lib pk block_hash sig
      then some pk
      else rest

  -- The loop over the signatures; `validCount` is kept beside `used`.
  unfoldable pub count_signers : List Bytes → ℕ → List Bytes → List Bytes → List Bytes × ℕ
  count_signers used valid_count [] pub_keys = (used, valid_count)
  count_signers used valid_count (sig ∷ sigs) pub_keys =
      let skip = count_signers used valid_count sigs pub_keys in
      if is_empty sig then skip else elim (find_signer used sig pub_keys) [
        | none ↦ count_signers used valid_count sigs pub_keys
        | some pk ↦ count_signers (pk ∷ used) (valid_count + 1) sigs pub_keys
      ]

  unfoldable pub verify_quorum :
      List Bytes → List Bytes → QuorumConfig → Result QuorumError (Unit {0})
  verify_quorum sigs pub_keys q =
      if is_valid q
      then (if ltb_ℤ (pos (count_signers [] 0 sigs pub_keys).1) q.required_sigs
          then err quorum_not_met
          else ok tt)
      else err quorum_not_met
