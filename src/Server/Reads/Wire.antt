-- ===== src/Server/Reads/Wire.antt =====
-- blockToProto of pkg/server/server.go against pkg/lightclient: what the wire keeps of a block is
-- enough for a client's verdict.
use gleipnir.Prelude.{
  or_nil, ℕ, ◌≡◌, refl, ap, ◌∙◌, inl, inr, Option-cases, arith, false, Bytes, bytes_eq, codes, ◌==◌,
  Bool, Option, none, some, List, [], ◌∷◌, map, All,
}
use gleipnir.Prelude.Int.{ℤ, pos}
use gleipnir.Prelude.Table.{Table, lookup}
use gleipnir.Chain.{Block, ProvenanceEntry}
use gleipnir.Chain.BlockHash.{HashCodec, compute_block_hash}
use gleipnir.Chain.KeyRotation.{Codec}
use gleipnir.Identity.Dilithium.{Mldsa}
use gleipnir.LightClient.{
  TrustAnchor, is_degraded_block, bitmap_signers, is_linked, verify_signatures, verify_block,
}
use gleipnir.Server.Reads.{PbEntry, PbBlock, block_to_proto, entry_to_proto, non_negative_uint64}

-- An optional array has its length, which is not zero; a slice of entries that is not nil has some; a
-- count is not negative.
pub data Filled (A : Type 0) : Option (List A) → Type 0 where
  absent : Filled A none
  present : (x : A) → (xs : List A) → Filled A (some (x ∷ xs))

pub data Counts : ℤ → Type 0 where
  counts : (n : ℕ) → Counts (pos n)

abbrev pub FormedEntry : ProvenanceEntry → Type 0
FormedEntry e = Filled ℕ e.approver × (Filled ℕ e.reference × Filled ℕ e.mandate_ref)

pub record Formed (b : Block) : Type 0 where
  pub filled : Filled ProvenanceEntry b.anchored
  pub entries : All FormedEntry (or_nil b.anchored)
  pub total : Counts b.quorum.total_validators
  pub required : Counts b.quorum.required_sigs

or_nil-inj :
    (A : Type 0) (a b : Option (List A)) → Filled A a → Filled A b → or_nil a ≡ or_nil b → a ≡ b
or_nil-inj A a b absent absent h = refl
or_nil-inj A a b absent (present y ys) h = absurd (ground arith)
or_nil-inj A a b (present x xs) absent h = absurd (ground arith)
or_nil-inj A a b (present x xs) (present y ys) h = ap some h

Counts-inj : (a b : ℤ) → Counts a → Counts b → non_negative_uint64 a ≡ non_negative_uint64 b → a ≡ b
unfolding non_negative_uint64
Counts-inj a b (counts m) (counts n) h = ap pos h

entry_to_proto-inj :
    (d e : ProvenanceEntry)
    → FormedEntry d
    → FormedEntry e
    → entry_to_proto d ≡ entry_to_proto e
    → d ≡ e
unfolding entry_to_proto
entry_to_proto-inj d e f g h =
    let approver =
      or_nil-inj ℕ d.approver e.approver f.0 g.0 (ap (λ (p : PbEntry). p.approver) h) in
    let reference =
      or_nil-inj ℕ d.reference e.reference f.1.0 g.1.0 (ap (λ (p : PbEntry). p.reference) h) in
    let mandate =
      or_nil-inj ℕ d.mandate_ref e.mandate_ref f.1.1 g.1.1
        (ap (λ (p : PbEntry). p.mandate_ref) h) in
    λ i. record {
      hash = (h i).hash;
      submitter = (h i).submitter;
      timestamp = (h i).timestamp;
      label = (h i).label;
      approver = approver i;
      reference = reference i;
      signature = (h i).signature;
      mandate_ref = mandate i;
    }

map-inj :
    (ds es : List ProvenanceEntry)
    → All FormedEntry ds
    → All FormedEntry es
    → map entry_to_proto ds ≡ map entry_to_proto es
    → ds ≡ es
map-inj [] [] f g h = refl
map-inj [] (e ∷ es) f g h = absurd (ground arith)
map-inj (d ∷ ds) [] f g h = absurd (ground arith)
map-inj (d ∷ ds) (e ∷ es) f g h =
    ground (arith, entry_to_proto-inj d e f.0 g.0, map-inj ds es f.1 g.1)

module _ (b c : Block) (f : Formed b) (g : Formed c)
    (same : block_to_proto b ≡ block_to_proto c) where
  same_anchored : b.anchored ≡ c.anchored
  unfolding block_to_proto
  same_anchored = or_nil-inj ProvenanceEntry b.anchored c.anchored f.filled g.filled (
      map-inj (or_nil b.anchored) (or_nil c.anchored) f.entries g.entries
        (ap (λ (p : PbBlock). p.anchored) same))

  same_quorum : b.quorum ≡ c.quorum
  unfolding block_to_proto
  same_quorum =
      let total =
        Counts-inj b.quorum.total_validators c.quorum.total_validators f.total g.total
          (ap (λ (p : PbBlock). p.total_validators) same) in
      let required =
        Counts-inj b.quorum.required_sigs c.quorum.required_sigs f.required g.required
          (ap (λ (p : PbBlock). p.required_sigs) same) in
      λ i. record { total_validators = total i; required_sigs = required i }

  -- The block that b becomes when its optional slices and maps are c's: all that the wire loses.
  same_but_nil :
      record b {
        prepare_sigs_bitmap = c.prepare_sigs_bitmap;
        prepare_sigs = c.prepare_sigs;
        metadata = c.metadata;
      }
      ≡ c
  unfolding block_to_proto
  same_but_nil = λ i. record {
    index = (same i).index;
    prev_hash = (same i).prev_hash;
    state_root = (same i).state_root;
    proposer = (same i).proposer;
    anchored = same_anchored i;
    lambda1 = (same i).lambda1;
    timestamp = (same i).timestamp;
    validators = (same i).validators;
    quorum = same_quorum i;
    block_hash = (same i).block_hash;
    protocol_version = (same i).protocol_version;
    prepare_sigs_bitmap = c.prepare_sigs_bitmap;
    prepare_sigs = c.prepare_sigs;
    commit_sig = (same i).commit_sig;
    external_anchors = (same i).external_anchors;
    key_rotation_epoch = (same i).key_rotation_epoch;
    legacy_anchor = (same i).legacy_anchor;
    metadata = c.metadata;
  }

abbrev marked : Option Bytes → Bool
marked none = false
marked (some value) = value == codes "true"

is_degraded_block-or_nil :
    (b : Block)
    → is_degraded_block b ≡ marked (lookup (codes "3cp:degraded-block") (or_nil b.metadata))
unfolding is_degraded_block lookup
is_degraded_block-or_nil b = elim (Option-cases b.metadata) [
  | inl missing ↦ rw (is_degraded_block, missing) refl
  | inr (m, given) ↦ elim (Option-cases (lookup (codes "3cp:degraded-block") m)) [
    | inl unmarked ↦ rw (is_degraded_block, given, unmarked) refl
    | inr (value, found) ↦ rw (is_degraded_block, given, found) refl
  ]
]

module _ (lib : Mldsa) (codec : HashCodec) (rotation_codec : Codec) (anchor : TrustAnchor) where
  -- The verdict reads optional slices and maps as empty where they are missing.
  verify_block-or_nil :
      (b : Block) (bitmap : Option Bytes) (sigs : Option (List Bytes))
      (metadata : Option (Table Bytes Bytes))
      → or_nil b.prepare_sigs_bitmap ≡ or_nil bitmap
      → or_nil b.prepare_sigs ≡ or_nil sigs
      → or_nil b.metadata ≡ or_nil metadata
      → verify_block lib codec rotation_codec (some b) anchor
        ≡ verify_block lib codec rotation_codec
            (some
              (record b { prepare_sigs_bitmap = bitmap; prepare_sigs = sigs; metadata = metadata }))
            anchor
  unfolding verify_block verify_signatures bitmap_signers is_linked compute_block_hash
  verify_block-or_nil b bitmap sigs metadata p q r =
      let other =
        is_degraded_block-or_nil
          (record b { prepare_sigs_bitmap = bitmap; prepare_sigs = sigs; metadata = metadata }) in
      rw (is_degraded_block-or_nil b, other, p, q, r) refl

  -- Two blocks that the server sends alike get the same verdict from a light client, whatever it
  -- trusts: what the wire keeps of a block is enough to recompute its hash and to check its
  -- signatures. A slice of entries that is not nil holds some, since the hash tells nil from empty and
  -- the wire does not; the optional arrays of the entries are not empty where there are any, and the
  -- counts of the quorum are not negative.
  pub verify_block-sent_alike :
      (b c : Block)
      → Formed b
      → Formed c
      → block_to_proto b ≡ block_to_proto c
      → verify_block lib codec rotation_codec (some b) anchor
        ≡ verify_block lib codec rotation_codec (some c) anchor
  unfolding block_to_proto
  verify_block-sent_alike b c f g same =
      verify_block-or_nil b c.prepare_sigs_bitmap c.prepare_sigs c.metadata
        (ap (λ (p : PbBlock). p.prepare_sigs_bitmap) same)
        (ap (λ (p : PbBlock). p.prepare_sigs) same) (ap (λ (p : PbBlock). p.metadata) same)
      ∙ ap (λ (x : Block). verify_block lib codec rotation_codec (some x) anchor)
          (same_but_nil b c f g same)
