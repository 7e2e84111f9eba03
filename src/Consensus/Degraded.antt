-- ===== src/Consensus/Degraded.antt =====
-- pkg/consensus/degraded.go: the mode in which one signature finalises a block.
pub mod Mode
pub mod Label
use gleipnir.Prelude.{
  or_nil, ℕ, zero, suc, ◌+◌, ◌/◌, Bool, true, false, not, ◌&&◌, Bytes, codes, zero_bytes, Option,
  none, some, List, [], ◌∷◌, length, get_elem?, ltb, leb, nat_beq, if◌then◌else◌, bytes_eq,
}
use gleipnir.Prelude.Int.{ℤ, pos, negsuc}
use gleipnir.Prelude.Words.{add64}
use gleipnir.Prelude.Results.{Result, ok, err}
use gleipnir.Prelude.Table.{Table, insert}
use gleipnir.Prelude.Bits.{bitmap_bit, bitmap_set}
use gleipnir.Identity.Dilithium.{Mldsa, verify_dilithium}
use gleipnir.Chain.{Block}
use gleipnir.Consensus.Peer.{Peer}
use gleipnir.Consensus.Commit.{degraded_label}

pub record DegradedMode : Type 0 where
  pub min_validators : ℕ
  pub grace_cycles : ℕ
  pub consecutive_normal : ℕ
  pub in_degraded : Bool

-- NewDegradedMode
unfoldable pub new_degraded_mode : ℕ → ℕ → DegradedMode
new_degraded_mode min_validators grace_cycles = record {
  min_validators = min_validators;
  grace_cycles = grace_cycles;
  consecutive_normal = 0;
  in_degraded = false;
}

unfoldable pub non_negative : ℤ → ℕ
non_negative (pos n) = n
non_negative (negsuc n) = 0

-- CheckDegradedTransition: the new mode, `transitioned` and `enteredDegraded`.
unfoldable pub check_transition : DegradedMode → ℤ → Bool → DegradedMode × Bool × Bool
check_transition d current_validators quorum_reached =
    if not d.in_degraded
    then (if ltb (non_negative current_validators) d.min_validators
        then (record d { in_degraded = true; consecutive_normal = 0 }, true, true)
        else (d, false, false))
    else if leb d.min_validators (non_negative current_validators) && quorum_reached
    then (let counted = add64 d.consecutive_normal 1 in
        if leb d.grace_cycles counted
        then (record d { in_degraded = false; consecutive_normal = 0 }, true, false)
        else (record d { consecutive_normal = counted }, false, true))
    else (record d { consecutive_normal = 0 }, false, true)

module _ (lib : Mldsa) (block_hash bitmap : Bytes) (sigs : List Bytes) where
  -- The search for one valid signature, from peer `i` and signature `k` on.
  unfoldable pub find_valid : ℕ → ℕ → List Peer → Option (Bytes × ℕ)
  find_valid i k [] = none
  find_valid i k (p ∷ ps) =
      let skip = find_valid (i + 1) k ps in
      let next = find_valid (i + 1) (k + 1) ps in
      if leb (length bitmap) (i / 8)
      then none
      else if not (bitmap_bit bitmap i)
      then skip
      else elim (get_elem? sigs k) [
        | none ↦ none
        | some sig ↦
            if nat_beq (length sig) 0
            then next
            else if verify_dilithium lib p.public_key block_hash sig
            then some (sig, i)
            else next
      ]

pub data DegradedError : Type 0 where
  no_valid_signature : DegradedError

-- The block that keeps the one signature, its bit, and the label.
abbrev relabelled : Block → ℕ → Bytes × ℕ → Block
relabelled block n (sig, i) = record block {
  prepare_sigs = some (sig ∷ []);
  prepare_sigs_bitmap = some (bitmap_set (zero_bytes ((n + 7) / 8)) i);
  metadata = some (insert degraded_label (codes "true") (or_nil block.metadata));
}

unfoldable pub apply_degraded_block :
    Mldsa → DegradedMode → Block → List Peer → Result DegradedError Block
apply_degraded_block lib d block peers =
    if not d.in_degraded
    then ok block
    else elim (find_valid lib block.block_hash (or_nil block.prepare_sigs_bitmap)
        (or_nil block.prepare_sigs) 0 0 peers) [
          | none ↦ err no_valid_signature
          | some found ↦ ok (relabelled block (length peers) found)
        ]
