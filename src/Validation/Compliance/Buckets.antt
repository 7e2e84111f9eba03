-- ===== src/Validation/Compliance/Buckets.antt =====
-- The expectations of a rule cut the window into intervals.
use gleipnir.Prelude.{
  ℕ, zero, suc, ◌+◌, ◌-◌, ◌*◌, ◌≤◌, ◌<◌, ◌≡◌, refl, Option, some, List, [], ◌∷◌, arith,
}
use native.Mathlib.Decide.{dec_lt}
use gleipnir.Prelude.Int.{pos}
use gleipnir.Chain.Mandate.{Rule}
use gleipnir.Validation.Compliance.{
  ComplianceWindow, Expectation, buckets, expected_events, add_i64, i64_bound, nanos, max_deferral,
}

-- The intervals follow one another from `s` to `e` without a gap, each of them not empty and no
-- longer than `step`.
abbrev pub Tiles : ℕ → ℕ → ℕ → List Expectation → Type 0
Tiles step s e [] = s ≡ e
Tiles step s e (x ∷ xs) =
    (m : ℕ) × (x.start ≡ pos s) × (x.end ≡ pos m) × (s < m) × (m ≤ s + step) × Tiles step m e xs

-- What the loop gives, with the tiles.
pub record Cut (found : Option (List Expectation)) (step s e : ℕ) : Type 0 where
  pub intervals : List Expectation
  pub cut : found ≡ some intervals
  pub tiles : Tiles step s e intervals

buckets_at_end :
    (fuel step s e : ℕ) → 0 < fuel → e ≤ s → buckets fuel step (pos s) (pos e) ≡ some []
unfolding buckets
buckets_at_end zero step s e p h = absurd (omega arith)
buckets_at_end (suc fuel) step s e p h = ground arith

buckets-Cut :
    (fuel step s e : ℕ)
    → 0 < step
    → s ≤ e
    → e + step < i64_bound
    → e - s < fuel
    → Cut (buckets fuel step (pos s) (pos e)) step s e
unfolding buckets add_i64
buckets-Cut zero step s e p le room enough = absurd (omega arith)
buckets-Cut (suc fuel) step s e p le room enough = elim (dec_lt s e) [
  | no done ↦ record { intervals = []; cut = ground arith; tiles = omega arith }
  | yes more ↦ elim (dec_lt (s + step) e) [
    | yes whole ↦
        let rest = buckets-Cut fuel step (s + step) e p (omega arith) room (omega arith) in
        record {
          intervals = record { start = pos s; end = pos (s + step) } ∷ rest.intervals;
          cut = ground (arith, rest.cut);
          tiles = (s + step, refl, refl, omega arith, omega arith, rest.tiles);
        }
    | no last ↦
        let rest = buckets_at_end fuel step (s + step) e (omega arith) (omega arith) in
        record {
          intervals = record { start = pos s; end = pos e } ∷ [];
          cut = ground (arith, rest);
          tiles = (e, refl, refl, more, omega arith, refl);
        }
  ]
]

-- A window that holds a moment at least, and ends far enough below the greatest int64, is cut by a
-- rule that bounds the deferral into intervals that follow one another from its start to its end:
-- none is empty, and none is longer than the deferral. As much fuel as the window has
-- nanoseconds, and one, is enough.
pub expected_events-Cut :
    (fuel : ℕ) (rule : Rule) (w : ComplianceWindow) (s e : ℕ)
    → w.start_timestamp ≡ pos s
    → w.end_timestamp ≡ pos e
    → s < e
    → 0 < rule.max_deferral_sec
    → rule.max_deferral_sec ≤ max_deferral
    → e + rule.max_deferral_sec * nanos < i64_bound
    → e - s < fuel
    → Cut (expected_events fuel rule w) (rule.max_deferral_sec * nanos) s e
unfolding expected_events
expected_events-Cut fuel rule w s e a b some_time bounded small room enough =
    let c =
      buckets-Cut fuel (rule.max_deferral_sec * nanos) s e (omega arith) (omega arith) room
        enough in
    record { intervals = c.intervals; cut = ground (arith, c.cut); tiles = c.tiles }
