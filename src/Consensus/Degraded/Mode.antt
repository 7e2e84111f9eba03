-- ===== src/Consensus/Degraded/Mode.antt =====
-- When the mode is entered and left.
use native.Mathlib.Decide.{ℕ_discrete}
use gleipnir.Prelude.{
  ℕ, ◌+◌, ◌≤◌, ◌<◌, ◌≡◌, Bool, true, false, not, ◌&&◌, List, [], ◌∷◌, arith, length, All, leb,
  nat_beq, inl, inr, ◌⊎◌,
}
use gleipnir.Prelude.Int.{ℤ}
use gleipnir.Prelude.Words.{u64_mod}
use gleipnir.Consensus.Degraded.{DegradedMode, check_transition, non_negative}

-- One cycle as the mode sees it: the number of validators, and whether the quorum was reached.
abbrev pub Cycle : Type 0
Cycle = ℤ × Bool

abbrev pub after : DegradedMode → Cycle → DegradedMode
after d (n, q) = (check_transition d n q).0

unfoldable pub run : DegradedMode → List Cycle → DegradedMode
run d [] = d
run d (c ∷ cs) = run (after d c) cs

-- Enough validators, and the quorum reached.
abbrev pub normal : DegradedMode → Cycle → Bool
normal d (n, q) = leb d.min_validators (non_negative n) && q

-- The count of normal cycles runs only in degraded mode, and never gets to the grace period.
pub record IsCounting (d : DegradedMode) : Type 0 where
  pub idle : d.in_degraded ≡ false → d.consecutive_normal ≡ 0
  pub below : (d.consecutive_normal ≡ 0) ⊎ (d.consecutive_normal < d.grace_cycles)
  pub in_range : d.grace_cycles < u64_mod

-- Each cycle keeps the count within its bounds.
pub check_transition-IsCounting :
    (d : DegradedMode) (c : Cycle) → IsCounting d → IsCounting (after d c)
unfolding check_transition
check_transition-IsCounting d (n, q) v = record {
  idle = ground (arith, v.idle);
  below = ground (arith, v.below);
  in_range = ground (arith, v.in_range);
}

settings-after :
    (d : DegradedMode) (c : Cycle)
    → ((after d c).min_validators ≡ d.min_validators) × ((after d c).grace_cycles ≡ d.grace_cycles)
unfolding check_transition
settings-after d (n, q) = (ground arith, ground arith)

-- All cycles are normal.
abbrev pub AllNormal : ℕ → List Cycle → Type 0
AllNormal min_validators = All λ c. (leb min_validators (non_negative c.0) && c.1) ≡ true

counts_on :
    (d : DegradedMode) (c : Cycle)
    → d.in_degraded ≡ true
    → d.consecutive_normal + 1 < d.grace_cycles
    → d.grace_cycles < u64_mod
    → normal d c ≡ true
    → after d c ≡ record d { consecutive_normal = d.consecutive_normal + 1 }
unfolding check_transition
counts_on d (n, q) on room range good = ground arith

leaves :
    (d : DegradedMode) (c : Cycle)
    → d.in_degraded ≡ true
    → d.consecutive_normal + 1 ≡ d.grace_cycles
    → d.grace_cycles < u64_mod
    → normal d c ≡ true
    → (after d c).in_degraded ≡ false
unfolding check_transition
leaves d (n, q) on last range good = ground arith

-- In degraded mode, normal cycles in a row are counted, and the mode is left in the very cycle in
-- which they are as many as the grace period.
recovery :
    (d : DegradedMode) (cs : List Cycle)
    → d.in_degraded ≡ true
    → d.consecutive_normal < d.grace_cycles
    → d.grace_cycles < u64_mod
    → AllNormal d.min_validators cs
    → d.consecutive_normal + length cs ≤ d.grace_cycles
    → (run d cs).in_degraded ≡ not (nat_beq (d.consecutive_normal + length cs) d.grace_cycles)
unfolding run
recovery d [] on below range good room = ground arith
recovery d (c ∷ []) on below range good room =
    elim (ℕ_discrete (d.consecutive_normal + 1) d.grace_cycles) [
      | yes last ↦ ground (arith, leaves d c on last range good.0)
      | no more ↦ rw (counts_on d c on (omega arith) range good.0) (ground arith)
    ]
recovery d (c ∷ c' ∷ cs) on below range good room =
    rw (counts_on d c on (omega arith) range good.0, run)
      (ground (
        arith,
        recovery (record d { consecutive_normal = d.consecutive_normal + 1 }) (c' ∷ cs) on
            (omega arith) range good.1 (omega arith),
      ))

counts_by_one :
    (d : DegradedMode) (c : Cycle)
    → d.in_degraded ≡ true
    → d.grace_cycles < u64_mod
    → d.consecutive_normal < d.grace_cycles
    → (d.grace_cycles ≤ d.consecutive_normal + 1)
      ⊎ (((after d c).in_degraded ≡ true)
          × ((after d c).consecutive_normal ≤ d.consecutive_normal + 1)
          × ((after d c).grace_cycles ≡ d.grace_cycles)
          × ((after d c).consecutive_normal < d.grace_cycles))
unfolding check_transition
counts_by_one d (n, q) on range below = ground arith

-- Whatever the cycles bring, the mode is not left before the grace period: by then there have been
-- as many cycles as were missing from it.
leaving_takes_grace :
    (d : DegradedMode) (cs : List Cycle)
    → d.in_degraded ≡ true
    → d.consecutive_normal < d.grace_cycles
    → d.grace_cycles < u64_mod
    → (run d cs).in_degraded ≡ false
    → d.grace_cycles ≤ d.consecutive_normal + length cs
unfolding run
leaving_takes_grace d [] on below range off = cc
leaving_takes_grace d (c ∷ cs) on below range off = elim (counts_by_one d c on range below) [
  | inl done ↦ omega arith
  | inr next ↦
      let rest = leaving_takes_grace (after d c) cs next.0 (omega arith) (omega arith) off in
      omega (arith, rest, next.1, next.2)
]
