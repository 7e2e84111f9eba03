-- ===== src/LightClient/Crash.antt =====
-- pkg/lightclient/service.go, the loop over the signatures: `anchor.Validators[claimed]` for a
-- position that the bitmap claims.
use gleipnir.Prelude.{
  or_nil, ℕ, zero, suc, ◌+◌, ◌*◌, ◌/◌, ◌%◌, ◌≤◌, ◌<◌, ◌≡◌, ◌≢◌, refl, subst, true, false, Bytes,
  bytes_eq, nat_eq, none, some, List, [], ◌∷◌, ◌++◌, arith, length, get_elem?, length-append, All,
  Option-cases, inl, inr, sym,
}
use gleipnir.Prelude.Table.{Table, lookup}
use gleipnir.Prelude.Bits.{bitmap_bit, byte_at, test_bit, test_bit-zero, shr}
use gleipnir.Prelude.Results.{ok, err, Result-cases}
use gleipnir.Identity.Dilithium.{Mldsa}
use gleipnir.Chain.{Block, ValidatorInfo}
use gleipnir.Chain.BlockHash.{HashCodec, compute_block_hash}
use gleipnir.Chain.KeyRotation.{Codec}
use gleipnir.LightClient.{
  TrustAnchor, index_out_of_range, is_degraded_block, set_bits, bitmap_signers, new_key_resolver,
  keys_for_cycle, credit, is_linked, verify_signatures, verify_block,
}

get_elem?-beyond : (vs : List ValidatorInfo) (i : ℕ) → length vs ≤ i → get_elem? vs i ≡ none
get_elem?-beyond [] i h = refl
get_elem?-beyond (v ∷ vs) zero h = absurd (omega arith)
get_elem?-beyond (v ∷ vs) (suc i) h = get_elem?-beyond vs i (omega arith)

get_elem?-within : (vs : List ValidatorInfo) (i : ℕ) → i < length vs → get_elem? vs i ≢ none
get_elem?-within [] i h = absurd (omega arith)
get_elem?-within (v ∷ vs) zero h = λ e. ground arith
get_elem?-within (v ∷ vs) (suc i) h = get_elem?-within vs i (omega arith)

module _ (lib : Mldsa) (vs : List ValidatorInfo) (keys : Table Bytes (List Bytes))
    (hash : Bytes) where
  credit-in_range :
      (credited signers : List ℕ) (sigs : List Bytes)
      → All (λ i. i < length vs) signers
      → length sigs ≤ length signers
      → credit lib vs keys hash credited signers sigs ≢ err index_out_of_range
  unfolding credit
  credit-in_range credited signers [] h le = λ e. ground arith
  credit-in_range credited [] (sig ∷ sigs) h le = absurd (omega arith)
  credit-in_range credited (i ∷ signers) (sig ∷ sigs) h le = λ e.
      elim (Option-cases (get_elem? vs i)) [
        | inl beyond ↦ get_elem?-within vs i h.0 beyond
        | inr (info, found) ↦
            credit-in_range (i ∷ credited) signers sigs h.1 (omega arith) (ground arith)
      ]

  -- One more signature, whose position no validator has.
  credit-beyond :
      (credited signers out : List ℕ) (sigs : List Bytes) (j : ℕ) (extra : Bytes)
      → length vs ≤ j
      → length signers ≡ length sigs
      → credit lib vs keys hash credited signers sigs ≡ ok out
      → credit lib vs keys hash credited (signers ++ (j ∷ [])) (sigs ++ (extra ∷ []))
        ≡ err index_out_of_range
  unfolding credit
  credit-beyond credited [] out [] j extra beyond same h =
      rw (credit, get_elem?-beyond vs j beyond) refl
  credit-beyond credited [] out (sig ∷ sigs) j extra beyond same h = absurd (omega (arith, same))
  credit-beyond credited (i ∷ signers) out [] j extra beyond same h = absurd (omega (arith, same))
  credit-beyond credited (i ∷ signers) out (sig ∷ sigs) j extra beyond same h =
      elim (Option-cases (get_elem? vs i)) [
        | inl missing ↦ absurd (ground arith)
        | inr (info, found) ↦
            let rest =
              credit-beyond (i ∷ credited) signers out sigs j extra beyond (omega (arith, same))
                (ground arith) in
            ground arith
      ]

byte_at-append : (bs cs : Bytes) (i : ℕ) → i < length bs → byte_at (bs ++ cs) i ≡ byte_at bs i
byte_at-append [] cs i h = absurd (omega arith)
byte_at-append (b ∷ bs) cs zero h = refl
byte_at-append (b ∷ bs) cs (suc i) h = byte_at-append bs cs i (omega arith)

byte_at-end : (bs cs : Bytes) (c : ℕ) → byte_at (bs ++ (c ∷ cs)) (length bs) ≡ c
byte_at-end [] cs c = refl
byte_at-end (b ∷ bs) cs c = byte_at-end bs cs c

-- The bits below the appended byte stay.
bitmap_bit-append :
    (bm : Bytes) (i : ℕ) → i < length bm * 8 → bitmap_bit (bm ++ (1 ∷ [])) i ≡ bitmap_bit bm i
unfolding bitmap_bit
bitmap_bit-append bm i h = rw (byte_at-append bm (1 ∷ []) (i / 8) (omega arith)) refl

test_bit-one : (k : ℕ) → 0 < k → test_bit 1 k ≡ false
unfolding test_bit shr
test_bit-one zero h = absurd (omega arith)
test_bit-one (suc k) h = test_bit-zero k

-- Byte 1 has no bit but its lowest.
bitmap_bit-last :
    (bm : Bytes) (i : ℕ)
    → length bm * 8 < i
    → i < length bm * 8 + 8
    → bitmap_bit (bm ++ (1 ∷ [])) i ≡ false
unfolding bitmap_bit
bitmap_bit-last bm i above below =
    let e : i / 8 ≡ length bm = omega (arith, above, below) in
    rw (e, byte_at-end bm [] 1) (test_bit-one (i % 8) (omega (arith, above, below)))

set_bits-last :
    (bm : Bytes) (i n : ℕ)
    → length bm * 8 < i
    → i + n ≡ length bm * 8 + 8
    → set_bits (bm ++ (1 ∷ [])) i n ≡ []
unfolding set_bits
set_bits-last bm i zero above h = refl
set_bits-last bm i (suc n) above h =
    let rest = set_bits-last bm (i + 1) n (omega (arith, above)) (omega (arith, h)) in
    ground (arith, bitmap_bit-last bm i above (omega (arith, h)))

bitmap_bit-new : (bm : Bytes) → bitmap_bit (bm ++ (1 ∷ [])) (length bm * 8) ≡ true
unfolding bitmap_bit test_bit shr
bitmap_bit-new bm =
    let e : length bm * 8 / 8 ≡ length bm = omega arith in
    let z : length bm * 8 % 8 ≡ 0 = omega arith in rw (e, z, byte_at-end bm [] 1) refl

set_bits-append :
    (bm : Bytes) (i n : ℕ)
    → i + n ≡ length bm * 8
    → set_bits (bm ++ (1 ∷ [])) i (n + 8) ≡ set_bits bm i n ++ (length bm * 8 ∷ [])
unfolding set_bits
set_bits-append bm i zero h =
    let last = set_bits-last bm (i + 1) 7 (omega (arith, h)) (omega (arith, h)) in
    let e : i ≡ length bm * 8 = omega (arith, h) in let new = bitmap_bit-new bm in ground arith
set_bits-append bm i (suc n) h =
    let rest = set_bits-append bm (i + 1) n (omega (arith, h)) in
    ground (arith, bitmap_bit-append bm i (omega (arith, h)))

-- The block with one more byte at the end of its bitmap and one more signature.
abbrev pub with_extra : Bytes → Block → Block
with_extra extra block = record block {
  prepare_sigs_bitmap = some (or_nil block.prepare_sigs_bitmap ++ (1 ∷ []));
  prepare_sigs = some (or_nil block.prepare_sigs ++ (extra ∷ []));
}

bitmap_signers-length :
    (block : Block) (signers : List ℕ)
    → bitmap_signers block ≡ ok signers
    → (signers
        ≡ set_bits
            (or_nil block.prepare_sigs_bitmap)
            0
            (length (or_nil block.prepare_sigs_bitmap) * 8))
      × (length signers ≡ length (or_nil block.prepare_sigs))
unfolding bitmap_signers
bitmap_signers-length block signers h = ground arith

bitmap_signers-with_extra :
    (block : Block) (extra : Bytes) (signers : List ℕ)
    → bitmap_signers block ≡ ok signers
    → bitmap_signers (with_extra extra block)
      ≡ ok (signers ++ (length (or_nil block.prepare_sigs_bitmap) * 8 ∷ []))
unfolding bitmap_signers
bitmap_signers-with_extra block extra signers h =
    let bm = or_nil block.prepare_sigs_bitmap in
    let sigs = or_nil block.prepare_sigs in
    let was = bitmap_signers-length block signers h in
    let grown : length (bm ++ (1 ∷ [])) * 8 ≡ length bm * 8 + 8 =
      omega (arith, length-append bm (1 ∷ [])) in
    let bits = set_bits-append bm 0 (length bm * 8) (omega arith) in
    rw
      (
        grown,
        bits,
        sym was.0,
        length-append signers (length bm * 8 ∷ []),
        length-append sigs (extra ∷ []),
        was.1,
      )
      (ground arith)

module _ (lib : Mldsa) (codec : HashCodec) (rotation_codec : Codec) (block : Block)
    (anchor : TrustAnchor) where
  -- Where the bitmap of a block sets no bit beyond the trusted validators, verifying the block does
  -- not panic, whatever the block and the anchor hold.
  verify_block_in_range :
      All
        (λ i. i < length anchor.validators)
        (set_bits
          (or_nil block.prepare_sigs_bitmap)
          0
          (length (or_nil block.prepare_sigs_bitmap) * 8))
      → verify_block lib codec rotation_codec (some block) anchor ≢ err index_out_of_range
  unfolding verify_block verify_signatures bitmap_signers
  verify_block_in_range h = λ e. elim (Result-cases (bitmap_signers block)) [
    | inr (x, f) ↦ ground arith
    | inl (signers, f) ↦
        let n = bitmap_signers-length block signers f in
        let keys = keys_for_cycle (new_key_resolver lib rotation_codec anchor) block.index in
        let c =
          credit-in_range lib anchor.validators keys block.block_hash [] signers
            (or_nil block.prepare_sigs)
            (subst (All (λ i. i < length anchor.validators)) (sym n.0) h) (omega (arith, n.1)) in
        elim (Result-cases (
          credit lib anchor.validators keys block.block_hash [] signers
            (or_nil block.prepare_sigs))) [
              | inr (x, g) ↦ ground arith
              | inl (out, g) ↦ elim (Option-cases (lookup block.proposer keys)) [
                | inl missing ↦ ground arith
                | inr (ks, found) ↦ ground arith
              ]
            ]
  ]

  -- A block that the light client verifies becomes one on which it panics when a byte is put at the
  -- end of its bitmap and any signature at the end of its signatures, where the bitmap has room for
  -- all trusted validators; the block hash covers neither.
  pub extra_signature_panics :
      (extra : Bytes)
      → length anchor.validators ≤ length (or_nil block.prepare_sigs_bitmap) * 8
      → verify_block lib codec rotation_codec (some block) anchor ≡ ok tt
      → verify_block lib codec rotation_codec (some (with_extra extra block)) anchor
        ≡ err index_out_of_range
  unfolding verify_block verify_signatures compute_block_hash is_linked is_degraded_block
  extra_signature_panics extra room h = elim (Result-cases (bitmap_signers block)) [
    | inr (x, f) ↦ absurd (ground arith)
    | inl (signers, f) ↦
        let keys = keys_for_cycle (new_key_resolver lib rotation_codec anchor) block.index in
        let n = bitmap_signers-length block signers f in
        let f' = bitmap_signers-with_extra block extra signers f in
        let bits = length-append signers (length (or_nil block.prepare_sigs_bitmap) * 8 ∷ []) in
        elim (Result-cases (
          credit lib anchor.validators keys block.block_hash [] signers
            (or_nil block.prepare_sigs))) [
              | inr (x, g) ↦ absurd (ground arith)
              | inl (out, g) ↦
                  let g' =
                    credit-beyond lib anchor.validators keys block.block_hash [] signers out
                      (or_nil block.prepare_sigs) (length (or_nil block.prepare_sigs_bitmap) * 8)
                      extra room n.1 g in
                  rw (f', g') (ground arith)
            ]
  ]
