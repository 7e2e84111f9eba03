-- ===== src/Validation/Compliance.antt =====
-- pkg/validation/compliance_checker.go: the chain against the obligations that a mandate declares. A
-- report's rate, label, time and the text of a gap's details are left out. Sums of int64 wrap around.
pub mod Buckets
pub mod Report
use gleipnir.Prelude.{
  ℕ, zero, suc, ◌+◌, ◌-◌, ◌*◌, ◌^◌, Bool, true, false, not, ◌&&◌, Bytes, Option, none, some, List,
  [], ◌∷◌, ◌++◌, length, nat_beq, ltb, leb, if◌then◌else◌,
}
use gleipnir.Prelude.Int.{ℤ, pos, negsuc, leb_ℤ, ltb_ℤ}
use gleipnir.Prelude.Results.{Result, ok, err, guard, ◌>>=◌, ◌>>◌}
use gleipnir.Chain.{ProvenanceEntry}
use gleipnir.Chain.Mandate.{MandateEntry, Rule}
use gleipnir.Validation.Mandates.{
  MandateResolver, get_mandate_by_id, entry_matches_rule, entry_has_field,
}

abbrev pub i64_bound : ℕ
i64_bound = 2 ^ 63

-- a + b on int64, for b from 0 on.
unfoldable pub add_i64 : ℤ → ℕ → ℤ
add_i64 (pos a) b = if ltb (a + b) i64_bound then pos (a + b) else negsuc (2 ^ 64 - (a + b) - 1)
add_i64 (negsuc a) b = if leb b a then negsuc (a - b) else pos (b - a - 1)

pub record ComplianceWindow : Type 0 where
  pub start_timestamp : ℤ
  pub end_timestamp : ℤ
  pub start_cycle : ℕ
  pub end_cycle : ℕ

pub data ComplianceError : Type 0 where
  window_invalid unknown_mandate : ComplianceError

-- Validate
unfoldable pub validate_window : ComplianceWindow → Result ComplianceError (Unit {0})
validate_window w = do
  guard (ltb_ℤ (pos 0) w.start_timestamp && ltb_ℤ (pos 0) w.end_timestamp) window_invalid
  guard (leb_ℤ w.start_timestamp w.end_timestamp) window_invalid
  guard (leb w.start_cycle w.end_cycle) window_invalid
  ok tt

pub record Expectation : Type 0 where
  pub start : ℤ
  pub end : ℤ

abbrev bucket_end : ℤ → ℤ → ℤ
bucket_end next end = if ltb_ℤ end next then end else next

abbrev cons_some {ℓ} : {A : Type ℓ} → A → Option (List A) → Option (List A)
cons_some x none = none
cons_some x (some xs) = some (x ∷ xs)

-- The loop of expectedEvents; `none` is out of fuel.
unfoldable pub buckets : ℕ → ℕ → ℤ → ℤ → Option (List Expectation)
buckets zero step bucket_start end = none
buckets (suc fuel) step bucket_start end =
    let next = add_i64 bucket_start step in
    let rest = buckets fuel step next end in
    if ltb_ℤ bucket_start end
    then cons_some (record { start = bucket_start; end = bucket_end next end }) rest
    else some []

abbrev pub nanos : ℕ
nanos = 1000000000

-- maxDeferralSec: the greatest int64 divided by a second.
abbrev pub max_deferral : ℕ
max_deferral = 9223372036

-- expectedEvents. The code's test for a step that is not positive never holds: it comes after the
-- two tests on the deferral.
unfoldable pub expected_events : ℕ → Rule → ComplianceWindow → Option (List Expectation)
expected_events fuel rule w =
    if nat_beq rule.max_deferral_sec 0
    then some (record { start = w.start_timestamp; end = w.end_timestamp } ∷ [])
    else if ltb max_deferral rule.max_deferral_sec
    then some (record { start = w.start_timestamp; end = w.end_timestamp } ∷ [])
    else buckets fuel (rule.max_deferral_sec * nanos) w.start_timestamp w.end_timestamp

unfoldable pub missing_fields : List Bytes → ProvenanceEntry → List Bytes
missing_fields [] entry = []
missing_fields (field ∷ fields) entry =
    let rest = missing_fields fields entry in
    if not (entry_has_field entry field) then field ∷ rest else rest

-- The tests of findMatchingEntry on one entry.
unfoldable pub in_expectation : Rule → Expectation → ProvenanceEntry → Bool
in_expectation rule exp entry =
    entry_matches_rule entry rule
    && (leb_ℤ exp.start entry.timestamp && ltb_ℤ entry.timestamp exp.end)

abbrev pub Match : Type 0
Match = Option (ProvenanceEntry × List Bytes)

abbrev pub first_of : Match → ProvenanceEntry × List Bytes → Match
first_of none e = some e
first_of (some found) e = some found

-- findMatchingEntry, with the entry found so far and what it lacks.
unfoldable pub find_matching : Rule → Expectation → Match → List ProvenanceEntry → Match
find_matching rule exp found [] = found
find_matching rule exp found (e ∷ es) =
    let skip = find_matching rule exp found es in
    let missing = missing_fields rule.required_fields e in
    let on = find_matching rule exp (first_of found (e, missing)) es in
    if not (in_expectation rule exp e)
    then skip
    else if nat_beq (length missing) 0
    then some (e, [])
    else on

pub data GapStatus : Type 0 where
  missing_entry missing_entry_fields : GapStatus

pub record ComplianceGap : Type 0 where
  pub mandate_id : Bytes
  pub rule_index : ℕ
  pub event_class : Bytes
  pub window_start : ℤ
  pub window_end : ℤ
  pub status : GapStatus
  pub missing : List Bytes

pub record ComplianceReport : Type 0 where
  pub mandate_id : Bytes
  pub window : ComplianceWindow
  pub total_expected : ℕ
  pub total_anchored : ℕ
  pub gaps : List ComplianceGap

module _ (id : Bytes) (index : ℕ) (rule : Rule) where
  abbrev gap_at : Expectation → GapStatus → List Bytes → ComplianceGap
  gap_at exp status missing = record {
    mandate_id = id;
    rule_index = index;
    event_class = rule.event_class;
    window_start = exp.start;
    window_end = exp.end;
    status = status;
    missing = missing;
  }

  abbrev anchored : ComplianceReport → ComplianceReport
  anchored r = record r {
    total_expected = r.total_expected + 1;
    total_anchored = r.total_anchored + 1;
  }

  abbrev with_gap : ComplianceReport → ComplianceGap → ComplianceReport
  with_gap r g = record r { total_expected = r.total_expected + 1; gaps = r.gaps ++ g ∷ [] }

  -- The body of the loop over the expectations.
  unfoldable pub check_one : Expectation → Match → ComplianceReport → ComplianceReport
  check_one exp none r = with_gap r (gap_at exp missing_entry [])
  check_one exp (some (e, [])) r = anchored r
  check_one exp (some (e, m ∷ ms)) r = with_gap r (gap_at exp missing_entry_fields (m ∷ ms))

  unfoldable pub check_expectations :
      List ProvenanceEntry → List Expectation → ComplianceReport → ComplianceReport
  check_expectations entries [] r = r
  check_expectations entries (exp ∷ exps) r =
      check_expectations entries exps (check_one exp (find_matching rule exp none entries) r)

-- The loop over the rules.
unfoldable pub check_rules :
    ℕ
    → Bytes
    → ℕ
    → List Rule
    → ComplianceWindow
    → List ProvenanceEntry
    → ComplianceReport
    → Option ComplianceReport
check_rules fuel id index [] w entries r = some r
check_rules fuel id index (rule ∷ rules) w entries r =
    if not rule.mandatory
    then check_rules fuel id (index + 1) rules w entries r
    else elim (expected_events fuel rule w) [
      | none ↦ none
      | some exps ↦
          check_rules fuel id (index + 1) rules w entries
            (check_expectations id index rule entries exps r)
    ]

abbrev finished : Option ComplianceReport → Option (Result ComplianceError ComplianceReport)
finished none = none
finished (some r) = some (ok r)

abbrev pub empty_report : Bytes → ComplianceWindow → ComplianceReport
empty_report id w = record {
  mandate_id = id;
  window = w;
  total_expected = 0;
  total_anchored = 0;
  gaps = [];
}

-- CheckComplianceMandate; `none` is out of fuel.
unfoldable pub check_compliance_mandate :
    ℕ
    → MandateResolver
    → Bytes
    → ComplianceWindow
    → List ProvenanceEntry
    → Option (Result ComplianceError ComplianceReport)
check_compliance_mandate fuel resolver id w entries = elim (validate_window w) [
  | err e ↦ some (err e)
  | ok u ↦ elim (get_mandate_by_id resolver id) [
    | none ↦ some (err unknown_mandate)
    | some mandate ↦ finished (check_rules fuel id 0 mandate.rules w entries (empty_report id w))
  ]
]
