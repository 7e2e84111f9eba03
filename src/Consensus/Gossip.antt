-- ===== src/Consensus/Gossip.antt =====
-- pkg/consensus/gossip.go: the bus that the nodes of one process share. The lock is not modelled:
-- each method is one step. A clone of a block is the block. GetProposed alone does not clone: the
-- block that it hands out shares its Metadata map with the bus, and what the holder writes into that
-- map is `label_proposed` here.
pub mod Stable
use gleipnir.Prelude.{
  ℕ, Bool, true, false, Bytes, bytes_eq, nat_eq, ◌==◌, Option, none, some, List, [], ◌∷◌, ◌++◌, not,
  if◌then◌else◌,
}
use gleipnir.Prelude.Table.{Table, lookup, insert}
use gleipnir.Chain.{Block, ProvenanceEntry}

pub record BlockSig : Type 0 where
  pub cycle : ℕ
  pub sig : Bytes
  pub signer_id : Bytes

pub record VrfProofMsg : Type 0 where
  pub cycle : ℕ
  pub proof : Bytes
  pub signer_id : Bytes

pub record MemoryBus : Type 0 where
  pub entries : List ProvenanceEntry
  pub proposals : Table ℕ Block
  pub finals : Table ℕ Block
  pub sigs : Table ℕ (List BlockSig)
  pub vrf_proofs : Table ℕ (List VrfProofMsg)

unfoldable pub new_memory_bus : MemoryBus
new_memory_bus = record { entries = []; proposals = []; finals = []; sigs = []; vrf_proofs = [] }

unfoldable pub publish : MemoryBus → ProvenanceEntry → MemoryBus
publish b entry = record b { entries = b.entries ++ entry ∷ [] }

unfoldable pub snapshot : MemoryBus → List ProvenanceEntry
snapshot b = b.entries

-- remove[e.Hash]: a missing key reads as false.
abbrev or_false : Option Bool → Bool
or_false none = false
or_false (some r) = r

unfoldable pub kept : Table Bytes Bool → List ProvenanceEntry → List ProvenanceEntry
kept remove [] = []
kept remove (e ∷ es) =
    let rest = kept remove es in if not (or_false (lookup e.hash remove)) then e ∷ rest else rest

unfoldable pub remove_entries : MemoryBus → Table Bytes Bool → MemoryBus
remove_entries b remove = record b { entries = kept remove b.entries }

-- Propose: the first block of an index stays.
unfoldable pub propose : MemoryBus → Block → MemoryBus
propose b block = elim (lookup block.index b.proposals) [
  | none ↦ record b { proposals = insert block.index block b.proposals }
  | some earlier ↦ b
]

unfoldable pub get_proposed : MemoryBus → ℕ → Option Block
get_proposed b cycle = lookup cycle b.proposals

-- A label that whoever holds the proposal writes into its Metadata map. A nil map is not shared.
unfoldable pub label_proposed : MemoryBus → ℕ → Bytes → Bytes → MemoryBus
label_proposed b cycle key value = elim (lookup cycle b.proposals) [
  | none ↦ b
  | some block ↦ elim block.metadata [
    | none ↦ b
    | some m ↦
        let written = record block { metadata = some (insert key value m) } in
        record b { proposals = insert cycle written b.proposals }
  ]
]

unfoldable pub publish_final : MemoryBus → Block → MemoryBus
publish_final b block = record b { finals = insert block.index block b.finals }

unfoldable pub get_final : MemoryBus → ℕ → Option Block
get_final b cycle = lookup cycle b.finals

-- b.sigs[cycle]: a missing key reads as the nil slice.
abbrev pub or_nothing {ℓ} : {A : Type ℓ} → Option (List A) → List A
or_nothing none = []
or_nothing (some xs) = xs

-- existing.SignerID == signer for some message of the list.
unfoldable pub has_signer : Bytes → List BlockSig → Bool
has_signer signer [] = false
has_signer signer (s ∷ ss) = if s.signer_id == signer then true else has_signer signer ss

unfoldable pub get_sigs : MemoryBus → ℕ → List BlockSig
get_sigs b cycle = or_nothing (lookup cycle b.sigs)

unfoldable pub publish_sig : MemoryBus → BlockSig → MemoryBus
publish_sig b s =
    if has_signer s.signer_id (get_sigs b s.cycle)
    then b
    else record b { sigs = insert s.cycle (get_sigs b s.cycle ++ s ∷ []) b.sigs }

unfoldable pub has_prover : Bytes → List VrfProofMsg → Bool
has_prover signer [] = false
has_prover signer (m ∷ ms) = if m.signer_id == signer then true else has_prover signer ms

unfoldable pub get_vrf_proofs : MemoryBus → ℕ → List VrfProofMsg
get_vrf_proofs b cycle = or_nothing (lookup cycle b.vrf_proofs)

unfoldable pub publish_vrf_proof : MemoryBus → VrfProofMsg → MemoryBus
publish_vrf_proof b m =
    if has_prover m.signer_id (get_vrf_proofs b m.cycle)
    then b
    else record b { vrf_proofs = insert m.cycle (get_vrf_proofs b m.cycle ++ m ∷ []) b.vrf_proofs }
