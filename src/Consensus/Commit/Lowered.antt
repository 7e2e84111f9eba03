-- ===== src/Consensus/Commit/Lowered.antt =====
-- What the degraded label in a block's own Metadata does to the COMMIT phase of pkg/consensus/commit.go.
use gleipnir.Prelude.{codes, bytes_eq, or_nil, some}
use gleipnir.Prelude.Table.{insert}
use gleipnir.Chain.{Block}
use gleipnir.Consensus.Commit.{degraded_label}
use gleipnir.Consensus.Commit.Phase.{PrepareResult}

-- The candidate with the degraded label, and all else as it was.
abbrev pub with_label : Block → Block
with_label b = record b {
  metadata = some (insert degraded_label (codes "true") (or_nil b.metadata));
}

abbrev pub stamped : PrepareResult → PrepareResult
stamped r = record r { block = with_label r.block }
