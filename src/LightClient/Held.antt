-- ===== src/LightClient/Held.antt =====
-- The signatures that a leader has collected, as its final block carries them and as VerifyBlock reads
-- them.
use gleipnir.Prelude.{
  or_nil, ℕ, zero, suc, ◌+◌, ◌*◌, ◌≤◌, ◌≡◌, refl, subst, true, false, Bytes, bytes_eq, nat_eq, none,
  some, List, [], ◌∷◌, map, arith, length, get_elem?, count, All, Option-cases, inl, inr,
  if◌then◌else◌,
}
use gleipnir.Prelude.Table.{Table, lookup}
use gleipnir.Prelude.Bits.{bitmap_bit}
use gleipnir.Prelude.Results.{ok}
use gleipnir.Identity.Dilithium.{Mldsa}
use gleipnir.Chain.{ValidatorInfo}
use gleipnir.Validation.KeyRotation.{verifies_under}
use gleipnir.Consensus.Peer.{Peer, peer_id}
use gleipnir.Consensus.Commit.{compact_sigs}
use gleipnir.Consensus.Commit.Writing.{has_sig, flag, Marks}
use gleipnir.Engine.Rotations.{info_of}
use gleipnir.LightClient.{set_bits, is_credited, credit}

module _ (sigs : Table Bytes Bytes) where
  -- The numbers of the peers with a signature, and the signatures, in the order of the peers.
  abbrev pub positions : ℕ → List Peer → List ℕ
  positions i [] = []
  positions i (p ∷ ps) =
      let rest = positions (i + 1) ps in if has_sig sigs p then i ∷ rest else rest

  abbrev pub held : List Peer → List Bytes
  held [] = []
  held (p ∷ ps) =
      let rest = held ps in elim (lookup (peer_id p) sigs) [ none ↦ rest | some sig ↦ sig ∷ rest ]

  pub set_bits-positions :
      (bm : Bytes) (i n : ℕ) (ps : List Peer)
      → length ps ≤ n
      → ((j : ℕ) → i ≤ j → bitmap_bit bm j ≡ flag sigs i ps j)
      → set_bits bm i n ≡ positions i ps
  unfolding set_bits
  set_bits-positions bm i zero [] room bits = refl
  set_bits-positions bm i zero (p ∷ ps) room bits = absurd (omega (arith, room))
  set_bits-positions bm i (suc n) [] room bits = ground (
    arith,
    bits i (omega arith),
    set_bits-positions bm (i + 1) n [] (omega arith) (λ j le. bits j (omega (arith, le))),
  )
  set_bits-positions bm i (suc n) (p ∷ ps) room bits =
      let rest =
        set_bits-positions bm (i + 1) n ps (omega (arith, room))
          (λ j le. ground (arith, bits j (omega (arith, le)))) in
      ground (arith, bits i (omega arith))

  pub compact_sigs-held :
      (bm : Bytes) (i : ℕ) (ps : List Peer)
      → i + length ps ≤ length bm * 8
      → Marks sigs bm i ps
      → compact_sigs sigs bm i ps ≡ held ps
  unfolding compact_sigs
  compact_sigs-held bm i [] room marks = refl
  compact_sigs-held bm i (p ∷ ps) room marks =
      let rest = compact_sigs-held bm (i + 1) ps (omega (arith, room)) marks.1 in
      elim (Option-cases (lookup (peer_id p) sigs)) [
        | inl missing ↦ ground (arith, marks.0)
        | inr (sig, found) ↦ ground (arith, marks.0)
      ]

  pub length-positions :
      (i : ℕ) (ps : List Peer) → length (positions i ps) ≡ count (has_sig sigs) ps
  length-positions i [] = refl
  length-positions i (p ∷ ps) = ground (arith, length-positions (i + 1) ps)

  pub length-held : (ps : List Peer) → length (held ps) ≡ count (has_sig sigs) ps
  length-held [] = refl
  length-held (p ∷ ps) = elim (Option-cases (lookup (peer_id p) sigs)) [
    | inl missing ↦ ground (arith, length-held ps)
    | inr (sig, found) ↦ ground (arith, length-held ps)
  ]

  module _ (lib : Mldsa) (vs : List ValidatorInfo) (keys : Table Bytes (List Bytes))
      (hash : Bytes) where
    -- Each signature that the map holds verifies under a key that the table has for the peer.
    abbrev pub SignedUnder : List Peer → Type 0
    SignedUnder = All λ p.
        (sig : Bytes)
        → lookup (peer_id p) sigs ≡ some sig
        → verifies_under lib (or_nil (lookup p.root_id keys)) hash sig ≡ true

    pub credit-held :
        (i : ℕ) (ps : List Peer) (credited : List ℕ)
        → ((j : ℕ) → i ≤ j → is_credited credited j ≡ false)
        → ((m : ℕ) → get_elem? vs (i + m) ≡ get_elem? (map info_of ps) m)
        → SignedUnder ps
        → (out : List ℕ) × (credit lib vs keys hash credited (positions i ps) (held ps) ≡ ok out)
          × (length out ≡ length credited + count (has_sig sigs) ps)
    unfolding credit info_of
    credit-held i [] credited new at good = (credited, refl, omega arith)
    credit-held i (p ∷ ps) credited new at good =
        let here : get_elem? vs i ≡ some (info_of p) =
          subst (λ k. get_elem? vs k ≡ some (info_of p)) (none_added i) (at 0) in
        let at' = λ (m : ℕ).
          subst (λ k. get_elem? vs k ≡ get_elem? (map info_of ps) m) (shift m) (at (suc m)) in
        elim (Option-cases (lookup (peer_id p) sigs)) [
          | inl missing ↦
              let rest =
                credit-held (i + 1) ps credited (λ j le. new j (omega (arith, le))) at' good.1 in
              (rest.0, ground (arith, rest.1), ground (arith, rest.2))
          | inr (sig, found) ↦
              let rest =
                credit-held (i + 1) ps (i ∷ credited)
                  (λ j le. ground (arith, new j (omega (arith, le)))) at' good.1 in
              (
                rest.0,
                ground (arith, here, good.0 sig found, new i (omega arith), rest.1),
                ground (arith, rest.2),
              )
        ]
      where
        shift : (m : ℕ) → i + suc m ≡ i + 1 + m
        shift m = omega arith

        none_added : (k : ℕ) → k + 0 ≡ k
        none_added k = omega arith
