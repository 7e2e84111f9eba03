-- ===== src/Tests/ComplianceTests.antt =====
-- Mandates and compliance at small inputs: one rule, an access every second.
use gleipnir.Prelude.{
  ℕ, ◌*◌, ◌≡◌, refl, ◌↔◌, true, Bytes, bytes_beq, codes, zero_bytes, none, some, List, [], ◌∷◌,
  arith, All,
}
use gleipnir.Prelude.Int.{pos}
use gleipnir.Prelude.Table.{lookup}
use gleipnir.Prelude.Results.{ok}
use gleipnir.Chain.{ProvenanceEntry}
use gleipnir.Chain.Mandate.{MandateEntry, Rule}
use gleipnir.Validation.Mandates.{
  MandateResolver, get_mandate_by_id, validate_entry_against_mandates, entry_matches_rule,
  entry_has_field,
}
use gleipnir.Prelude.{Has}
use gleipnir.Chain.Mandate.{is_active_at}
use gleipnir.Validation.Mandates.Queries.{values, get_active_mandates}
use gleipnir.Validation.Mandates.InForce
use gleipnir.Validation.Mandates.InForce.{Unsuperseded}
use gleipnir.Validation.Mandates.Admission
use gleipnir.Validation.Mandates.Admission.{Compliant}
use gleipnir.Validation.Compliance.{
  ComplianceWindow, ComplianceReport, missing_entry, expected_events, buckets, add_i64,
  missing_fields, in_expectation, find_matching, check_one, check_expectations, check_rules,
  check_compliance_mandate, validate_window, nanos,
}
use gleipnir.Validation.Compliance.Buckets
use gleipnir.Validation.Compliance.Buckets.{Cut}
use gleipnir.Validation.Compliance.Report
use gleipnir.Validation.Compliance.Report.{Fulfilled}

abbrev accesses : Rule
accesses = record {
  event_class = codes "access";
  description = [];
  severity_min = 0;
  severity_max = 0;
  asset_criticality_min = 0;
  regulatory_scope = [];
  mandatory = true;
  required_fields = codes "Label" ∷ [];
  max_deferral_sec = 1;
}

abbrev policy_id : Bytes
policy_id = 4 ∷ []

abbrev policy : MandateEntry
policy = record {
  id = policy_id;
  authority = 1 ∷ [];
  version = 1;
  prev_version = zero_bytes 32;
  valid_from = pos 0;
  valid_until = pos 0;
  supersedes = zero_bytes 32;
  rules = accesses ∷ [];
  policy_hash = [];
  policy_uri = [];
  signature = [];
}

abbrev known : MandateResolver
known = (policy_id, policy) ∷ []

abbrev access_at : ℕ → ProvenanceEntry
access_at t = record {
  hash = 7 ∷ [];
  submitter = 1 ∷ [];
  timestamp = pos t;
  label = codes "access";
  approver = none;
  reference = none;
  signature = [];
  mandate_ref = some policy_id;
}

validate_entry_against_mandates_iff_example :
    (validate_entry_against_mandates known (some (access_at 5)) (pos 5) ≡ ok tt)
    ↔ Compliant (access_at 5) known (pos 5) policy_id
validate_entry_against_mandates_iff_example =
    Admission.validate_entry_against_mandates_iff (access_at 5) known (pos 5) policy_id refl

-- Two seconds and a half.
abbrev span : ComplianceWindow
span = record {
  start_timestamp = pos 1000000000;
  end_timestamp = pos 3500000000;
  start_cycle = 1;
  end_cycle = 2;
}

expected_events-Cut_example :
    Cut (expected_events 2500000001 accesses span) (1 * nanos) 1000000000 3500000000
expected_events-Cut_example =
    Buckets.expected_events-Cut 2500000001 accesses span 1000000000 3500000000 refl refl
      (omega arith) (omega arith) (omega arith) (omega arith) (omega arith)

abbrev every_second : List ProvenanceEntry
every_second = access_at 1500000000 ∷ access_at 2000000000 ∷ access_at 3400000000 ∷ []

abbrev full_report : ComplianceReport
full_report = record {
  mandate_id = policy_id;
  window = span;
  total_expected = 3;
  total_anchored = 3;
  gaps = [];
}

reports : check_compliance_mandate 4 known policy_id span every_second ≡ some (ok full_report)
unfolding check_compliance_mandate validate_window get_mandate_by_id check_rules expected_events
    buckets add_i64 check_expectations check_one find_matching in_expectation missing_fields
    entry_matches_rule entry_has_field lookup bytes_beq
reports = refl

no_gaps-Fulfilled_example :
    (m : MandateEntry) × (get_mandate_by_id known policy_id ≡ some m)
    × All (Fulfilled 4 policy_id span every_second) m.rules
no_gaps-Fulfilled_example =
    Report.no_gaps-Fulfilled 4 policy_id span every_second known full_report reports refl

-- The second second is left out.
abbrev sparse : List ProvenanceEntry
sparse = access_at 1500000000 ∷ access_at 3400000000 ∷ []

abbrev sparse_report : ComplianceReport
sparse_report = record {
  mandate_id = policy_id;
  window = span;
  total_expected = 3;
  total_anchored = 2;
  gaps =
      record {
        mandate_id = policy_id;
        rule_index = 0;
        event_class = codes "access";
        window_start = pos 2000000000;
        window_end = pos 3000000000;
        status = missing_entry;
        missing = [];
      }
      ∷ [];
}

reports_gap : check_compliance_mandate 4 known policy_id span sparse ≡ some (ok sparse_report)
unfolding check_compliance_mandate validate_window get_mandate_by_id check_rules expected_events
    buckets add_i64 check_expectations check_one find_matching in_expectation missing_fields
    entry_matches_rule entry_has_field lookup bytes_beq
reports_gap = refl

-- A successor of the policy, from the time 100 on.
abbrev successor : MandateEntry
successor = record policy { id = 5 ∷ []; version = 2; valid_from = pos 100; supersedes = policy_id }

get_active_mandates_iff_example :
    Has policy (get_active_mandates ((5 ∷ [], successor) ∷ known) (pos 50)) ↔ (
      Has policy (values ((5 ∷ [], successor) ∷ known))
      × (is_active_at policy (pos 50) ≡ true)
      × Unsuperseded (values ((5 ∷ [], successor) ∷ known)) policy_id)
get_active_mandates_iff_example =
    InForce.get_active_mandates_iff ((5 ∷ [], successor) ∷ known) (pos 50) policy
