-- ===== src/Server/Reads/Stream.antt =====
-- What StreamBlocks of pkg/server/lightclient.go sends.
use gleipnir.Prelude.{
  get_elem?-bound, ℕ, zero, suc, ◌+◌, ◌-◌, ◌^◌, ◌≤◌, ◌<◌, ◌≡◌, refl, ◌∙◌, inl, inr, Bool-cases,
  Option-cases, arith, none, some, List, [], ◌∷◌, map, length, get_elem?, ltb, leb, if◌then◌else◌,
}
use gleipnir.Prelude.Words.{add64, sub64}
use gleipnir.Engine.{Engine, get_block}
use gleipnir.Server.Reads.{block_to_proto, stream_from, stream_end, stream_blocks}

module _ {ℓ} {A : Type ℓ} where
  -- The `n` members from number `i` on, or as many as there are.
  abbrev pub slice : List A → ℕ → ℕ → List A
  slice [] i n = []
  slice (x ∷ xs) zero zero = []
  slice (x ∷ xs) zero (suc n) = x ∷ slice xs zero n
  slice (x ∷ xs) (suc i) n = slice xs i n

  slice-none : (xs : List A) (i n : ℕ) → get_elem? xs i ≡ none → slice xs i n ≡ []
  slice-none [] i n h = refl
  slice-none (x ∷ xs) zero n h = absurd (ground arith)
  slice-none (x ∷ xs) (suc i) n h = slice-none xs i n h

  slice-zero : (xs : List A) (i : ℕ) → slice xs i 0 ≡ []
  slice-zero [] i = refl
  slice-zero (x ∷ xs) zero = refl
  slice-zero (x ∷ xs) (suc i) = slice-zero xs i

  slice-some :
      (xs : List A) (i n : ℕ) (x : A)
      → get_elem? xs i ≡ some x
      → slice xs i (suc n) ≡ x ∷ slice xs (suc i) n
  slice-some [] i n x h = absurd (ground arith)
  slice-some (y ∷ xs) zero n x h = ground arith
  slice-some (y ∷ xs) (suc i) n x h = slice-some xs i n x h

get_block-elem : (e : Engine) (i : ℕ) → get_block e i ≡ get_elem? e.blocks i
unfolding get_block
get_block-elem e i = elim (Option-cases (get_elem? e.blocks i)) [
  | inl past ↦ ground arith
  | inr (b, found) ↦ ground (arith, get_elem?-bound e.blocks i b found)
]

-- What the loop still sends from number `i` on, up to the one before number `stop`.
stream_from-slice :
    (e : Engine) (fuel i to : ℕ)
    → length e.blocks < 2 ^ 64
    → suc to - i < fuel
    → stream_from e fuel i to ≡ some (map block_to_proto (slice e.blocks i (suc to - i)))
unfolding stream_from
stream_from-slice e zero i to small enough = absurd (omega arith)
stream_from-slice e (suc fuel) i to small enough = elim (Bool-cases (leb i to)) [
  | inr over ↦
      let none_left : suc to - i ≡ 0 = ground arith in
      rw (over, none_left, slice-zero e.blocks i) refl
  | inl within ↦ elim (Option-cases (get_elem? e.blocks i)) [
    | inl past ↦ rw (within, get_block-elem e i, past, slice-none e.blocks i (suc to - i) past) refl
    | inr (b, found) ↦
        let bound = get_elem?-bound e.blocks i b found in
        let next : add64 i 1 ≡ suc i = omega arith in
        let within' : i ≤ to = ground arith in
        let left : suc to - i ≡ suc (suc to - suc i) = omega arith in
        let later = stream_from-slice e fuel (suc i) to small (omega arith) in
        rw
          (
            within,
            get_block-elem e i,
            found,
            next,
            later,
            left,
            slice-some e.blocks i (suc to - suc i) b found,
          )
          refl
  ]
]

-- How many blocks are asked for, where a range whose end is below its start asks for one.
abbrev pub asked : ℕ → ℕ → ℕ
asked from to = if ltb to from then 1 else to + 1 - from

abbrev pub at_most : ℕ → ℕ → ℕ
at_most bound n = if leb n bound then n else bound

wrapped : (from : ℕ) → from < 2 ^ 64 → sub64 (add64 from 1024) 1 ≤ from + 1023
wrapped from f = omega arith

not_wrapped : (from : ℕ) → from + 1024 ≤ 2 ^ 64 → sub64 (add64 from 1024) 1 ≡ from + 1023
not_wrapped from f = omega arith

stream_end-bound : (from to : ℕ) → from < 2 ^ 64 → suc (stream_end from to) - from ≤ 1024
unfolding stream_end
stream_end-bound from to f = ground (arith, wrapped from f)

stream_end-asked :
    (from to : ℕ)
    → from + 1024 ≤ 2 ^ 64
    → suc (stream_end from to) - from ≡ at_most 1024 (asked from to)
unfolding stream_end
stream_end-asked from to f = ground (arith, not_wrapped from f)

-- Fuel for 1025 steps is enough for StreamBlocks, and what it sends is the blocks from the start of
-- the range on, as many as are asked for, but no more than 1024 and no more than there are. The start
-- is a 64-bit word, and the chain is at least 1024 blocks shorter than a 64-bit word can count.
pub stream_blocks-eq-slice :
    (e : Engine) (fuel from to : ℕ)
    → from < 2 ^ 64
    → length e.blocks + 1024 ≤ 2 ^ 64
    → 1024 < fuel
    → stream_blocks fuel e from to
      ≡ some (map block_to_proto (slice e.blocks from (at_most 1024 (asked from to))))
unfolding stream_blocks
stream_blocks-eq-slice e fuel from to f small enough =
    let sent =
      stream_from-slice e fuel from (stream_end from to) (omega arith)
        (omega (arith, stream_end-bound from to f)) in
    elim (Option-cases (get_elem? e.blocks from)) [
      | inl past ↦
          sent
          ∙ rw
              (
                slice-none e.blocks from (suc (stream_end from to) - from) past,
                slice-none e.blocks from (at_most 1024 (asked from to)) past,
              )
              refl
      | inr (b, found) ↦
          let room = get_elem?-bound e.blocks from b found in
          sent ∙ rw (stream_end-asked from to (omega arith)) refl
    ]
