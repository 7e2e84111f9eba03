-- ===== src/Validation/Compliance/Report.antt =====
-- What a report says of the chain.
use gleipnir.Prelude.{
  ℕ, ◌+◌, ◌≡◌, refl, ap, subst, true, false, Bytes, Option, none, some, List, [], ◌∷◌, arith, Has,
  All, Bool-cases, Option-cases, inl, inr, length, nat_beq, length-append,
}
use gleipnir.Prelude.Results.{ok}
use gleipnir.Chain.{ProvenanceEntry}
use gleipnir.Chain.Mandate.{MandateEntry, Rule}
use gleipnir.Validation.Mandates.{MandateResolver, get_mandate_by_id, entry_has_field}
use gleipnir.Validation.Compliance.{
  ComplianceWindow, ComplianceReport, Expectation, expected_events, missing_fields, in_expectation,
  find_matching, check_one, check_expectations, check_rules, check_compliance_mandate, first_of,
  Match, empty_report,
}

-- The books balance.
abbrev AddsUp : ComplianceReport → Type 0
AddsUp r = r.total_expected ≡ r.total_anchored + length r.gaps

-- One entry of the chain meets the expectation, with every field that the rule requires.
pub record Evidence (rule : Rule) (entries : List ProvenanceEntry) (exp : Expectation)
    : Type 0 where
  pub entry : ProvenanceEntry
  pub anchored : Has entry entries
  pub fits : in_expectation rule exp entry ≡ true
  pub complete : All (λ f. entry_has_field entry f ≡ true) rule.required_fields

nothing_missing :
    (fields : List Bytes) (e : ProvenanceEntry)
    → length (missing_fields fields e) ≡ 0
    → All (λ f. entry_has_field e f ≡ true) fields
unfolding missing_fields
nothing_missing [] e h = tt
nothing_missing (f ∷ fs) e h = (ground arith, nothing_missing fs e (ground arith))

module _ (rule : Rule) (exp : Expectation) where
  -- An entry kept in passing lacks something.
  abbrev Lacks : Option (ProvenanceEntry × List Bytes) → Type 0
  Lacks none = Unit
  Lacks (some (e, [])) = ⊥
  Lacks (some (e, m ∷ ms)) = Unit

  Evidence-more :
      (e : ProvenanceEntry) (es : List ProvenanceEntry)
      → Evidence rule es exp
      → Evidence rule (e ∷ es) exp
  Evidence-more e es v = record {
    entry = v.entry;
    anchored = inr v.anchored;
    fits = v.fits;
    complete = v.complete;
  }

  Lacks-first :
      (found : Match) (e : ProvenanceEntry) (missing : List Bytes)
      → Lacks found
      → nat_beq (length missing) 0 ≡ false
      → Lacks (first_of found (e, missing))
  Lacks-first (some x) e missing l h = l
  Lacks-first none e [] l h = absurd (ground arith)
  Lacks-first none e (m ∷ ms) l h = tt

  find_matching_lem :
      (found : Match) (es : List ProvenanceEntry) (e : ProvenanceEntry)
      → Lacks found
      → find_matching rule exp found es ≡ some (e, [])
      → Evidence rule es exp
  unfolding find_matching
  find_matching_lem none [] e l h = absurd (ground arith)
  find_matching_lem (some (x, [])) [] e l h = absurd l
  find_matching_lem (some (x, m ∷ ms)) [] e l h = absurd (ground arith)
  find_matching_lem found (x ∷ es) e l h = elim (Bool-cases (in_expectation rule exp x)) [
    | inl fits ↦ elim (Bool-cases (nat_beq (length (missing_fields rule.required_fields x)) 0)) [
      | inl full ↦ record {
        entry = x;
        anchored = inl refl;
        fits = fits;
        complete = nothing_missing rule.required_fields x (ground arith);
      }
      | inr short ↦ Evidence-more x es (
          find_matching_lem (first_of found (x, missing_fields rule.required_fields x)) es e
            (Lacks-first found x (missing_fields rule.required_fields x) l short) (ground arith))
    ]
    | inr outside ↦ Evidence-more x es (find_matching_lem found es e l (ground arith))
  ]

check_one-AddsUp :
    (id : Bytes) (i : ℕ) (rule : Rule) (exp : Expectation) (m : Match) (r : ComplianceReport)
    → AddsUp r
    → AddsUp (check_one id i rule exp m r)
unfolding check_one
check_one-AddsUp id i rule exp none r v = omega (arith, v, length-append r.gaps)
check_one-AddsUp id i rule exp (some (e, [])) r v = omega (arith, v)
check_one-AddsUp id i rule exp (some (e, m ∷ ms)) r v = omega (arith, v, length-append r.gaps)

check_expectations-AddsUp :
    (id : Bytes) (i : ℕ) (rule : Rule) (entries : List ProvenanceEntry) (exps : List Expectation)
    (r : ComplianceReport)
    → AddsUp r
    → AddsUp (check_expectations id i rule entries exps r)
unfolding check_expectations
check_expectations-AddsUp id i rule entries [] r v = v
check_expectations-AddsUp id i rule entries (x ∷ xs) r v =
    check_expectations-AddsUp id i rule entries xs _
      (check_one-AddsUp id i rule x (find_matching rule x none entries) r v)

module _ (fuel : ℕ) (id : Bytes) (w : ComplianceWindow) (entries : List ProvenanceEntry) where
  check_rules-AddsUp :
      (i : ℕ) (rules : List Rule) (r r' : ComplianceReport)
      → AddsUp r
      → check_rules fuel id i rules w entries r ≡ some r'
      → AddsUp r'
  unfolding check_rules
  check_rules-AddsUp i [] r r' v h = let same : r ≡ r' = ground arith in subst AddsUp same v
  check_rules-AddsUp i (rule ∷ rules) r r' v h = elim (Bool-cases rule.mandatory) [
    | inl must ↦ elim (Option-cases (expected_events fuel rule w)) [
      | inl spent ↦ absurd (ground arith)
      | inr (exps, e) ↦
          check_rules-AddsUp (i + 1) rules (check_expectations id i rule entries exps r) r'
            (check_expectations-AddsUp id i rule entries exps r v) (ground arith)
    ]
    | inr may ↦ check_rules-AddsUp (i + 1) rules r r' v (ground arith)
  ]

  -- Whatever a rule obliges the operator to has its evidence.
  abbrev pub Fulfilled : Rule → Type 0
  Fulfilled rule =
      rule.mandatory ≡ true
      → (exps : List Expectation) → expected_events fuel rule w ≡ some exps
      → All (Evidence rule entries) exps

  check_one-no_gap :
      (i : ℕ) (rule : Rule) (exp : Expectation) (m : Match) (r : ComplianceReport)
      → length (check_one id i rule exp m r).gaps ≡ 0
      → ((e : ProvenanceEntry) × (m ≡ some (e, []))) × (length r.gaps ≡ 0)
  unfolding check_one
  check_one-no_gap i rule exp none r h = absurd (omega (arith, h, length-append r.gaps))
  check_one-no_gap i rule exp (some (e, [])) r h = ((e, refl), h)
  check_one-no_gap i rule exp (some (e, m ∷ ms)) r h =
      absurd (omega (arith, h, length-append r.gaps))

  check_expectations-no_gap :
      (i : ℕ) (rule : Rule) (exps : List Expectation) (r : ComplianceReport)
      → length (check_expectations id i rule entries exps r).gaps ≡ 0
      → All (Evidence rule entries) exps × (length r.gaps ≡ 0)
  unfolding check_expectations
  check_expectations-no_gap i rule [] r h = (tt, h)
  check_expectations-no_gap i rule (x ∷ xs) r h =
      let later = check_expectations-no_gap i rule xs _ h in
      let now = check_one-no_gap i rule x (find_matching rule x none entries) r later.1 in
      ((find_matching_lem rule x none entries now.0.0 tt now.0.1, later.0), now.1)

  check_rules-no_gap :
      (i : ℕ) (rules : List Rule) (r r' : ComplianceReport)
      → check_rules fuel id i rules w entries r ≡ some r'
      → length r'.gaps ≡ 0
      → All Fulfilled rules × (length r.gaps ≡ 0)
  unfolding check_rules
  check_rules-no_gap i [] r r' h n =
      let same : r' ≡ r = ground arith in (tt, subst (λ x. length x.gaps ≡ 0) same n)
  check_rules-no_gap i (rule ∷ rules) r r' h n = elim (Bool-cases rule.mandatory) [
    | inl must ↦ elim (Option-cases (expected_events fuel rule w)) [
      | inl spent ↦ absurd (ground arith)
      | inr (exps, e) ↦
          let later =
            check_rules-no_gap (i + 1) rules (check_expectations id i rule entries exps r) r'
              (ground arith) n in
          let now = check_expectations-no_gap i rule exps r later.1 in
          (
            (
              λ m xs f.
                  let same : exps ≡ xs = ground arith in
                  subst (All (Evidence rule entries)) same now.0,
              later.0,
            ),
            now.1,
          )
    ]
    | inr may ↦
        let later = check_rules-no_gap (i + 1) rules r r' (ground arith) n in
        ((λ m xs f. absurd (ground arith), later.0), later.1)
  ]

  opened :
      (resolver : MandateResolver) (r : ComplianceReport)
      → check_compliance_mandate fuel resolver id w entries ≡ some (ok r)
      → (m : MandateEntry) × (get_mandate_by_id resolver id ≡ some m)
        × (check_rules fuel id 0 m.rules w entries (empty_report id w) ≡ some r)
  unfolding check_compliance_mandate
  opened resolver r h = elim (Option-cases (get_mandate_by_id resolver id)) [
    | inl unknown ↦ absurd (ground arith)
    | inr (m, known) ↦ (m, known, ground arith)
  ]

  -- A report counts every expectation once: as anchored, or as one gap.
  report_adds_up :
      (resolver : MandateResolver) (r : ComplianceReport)
      → check_compliance_mandate fuel resolver id w entries ≡ some (ok r)
      → r.total_expected ≡ r.total_anchored + length r.gaps
  report_adds_up resolver r h =
      let o = opened resolver r h in check_rules-AddsUp 0 o.0.rules (empty_report id w) r refl o.2

  -- A report without gaps means that the mandate is known, and that each expectation of each of its
  -- mandatory rules has an entry of the rule's event class within its interval that carries every
  -- field that the rule requires.
  pub no_gaps-Fulfilled :
      (resolver : MandateResolver) (r : ComplianceReport)
      → check_compliance_mandate fuel resolver id w entries ≡ some (ok r)
      → r.gaps ≡ []
      → (m : MandateEntry) × (get_mandate_by_id resolver id ≡ some m) × All Fulfilled m.rules
  no_gaps-Fulfilled resolver r h n =
      let o = opened resolver r h in
      (o.0, o.1, (check_rules-no_gap 0 o.0.rules (empty_report id w) r o.2 (ap length n)).0)
