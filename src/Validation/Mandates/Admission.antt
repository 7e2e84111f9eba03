-- ===== src/Validation/Mandates/Admission.antt =====
-- Which entries a mandate lets in.
use gleipnir.Prelude.{
  ◌≡◌, refl, ◌↔◌, true, Bytes, bytes_eq, some, List, [], ◌∷◌, arith, All, Bool-cases, Option-cases,
  inl, inr,
}
use gleipnir.Prelude.Int.{ℤ}
use gleipnir.Prelude.Results.{ok}
use gleipnir.Chain.{ProvenanceEntry}
use gleipnir.Chain.Mandate.{MandateEntry, Rule, is_active_at}
use gleipnir.Validation.Mandates.{
  MandateResolver, get_mandate_by_id, entry_matches_rule, entry_has_field, validate_fields,
  validate_rules, validate_entry_against_mandates,
}

module _ (entry : ProvenanceEntry) where
  abbrev pub HasFields : List Bytes → Type 0
  HasFields = All λ field. entry_has_field entry field ≡ true

  -- Every rule of the entry's class finds its fields.
  abbrev pub Keeps : List Rule → Type 0
  Keeps = All λ rule. entry_matches_rule entry rule ≡ true → HasFields rule.required_fields

  validate_fields_iff :
      (fields : List Bytes) → (validate_fields entry fields ≡ ok tt) ↔ HasFields fields
  unfolding validate_fields
  validate_fields_iff [] = (λ h. tt, λ h. refl)
  validate_fields_iff (f ∷ fs) = elim (Bool-cases (entry_has_field entry f)) [
    | inl has ↦ (
      λ h. (has, (validate_fields_iff fs).0 (ground arith)),
      λ h. ground (arith, (validate_fields_iff fs).1 h.1),
    )
    | inr lacks ↦ (λ h. absurd (ground arith), λ h. absurd (ground (arith, h.0)))
  ]

  validate_rules_iff : (rules : List Rule) → (validate_rules entry rules ≡ ok tt) ↔ Keeps rules
  unfolding validate_rules
  validate_rules_iff [] = (λ h. tt, λ h. refl)
  validate_rules_iff (r ∷ rs) = elim (Bool-cases (entry_matches_rule entry r)) [
    | inl own ↦ (
      λ h. (
        λ m. (validate_fields_iff r.required_fields).0 (ground arith),
        (validate_rules_iff rs).0 (ground arith),
      ),
      λ h. ground (
        arith,
        (validate_fields_iff r.required_fields).1 (h.0 own),
        (validate_rules_iff rs).1 h.1,
      ),
    )
    | inr foreign ↦ (
      λ h. (λ m. absurd (ground arith), (validate_rules_iff rs).0 (ground arith)),
      λ h. ground (arith, (validate_rules_iff rs).1 h.1),
    )
  ]

  -- The mandate is known and in force, and the entry keeps its rules.
  pub record Compliant (r : MandateResolver) (timestamp : ℤ) (id : Bytes) : Type 0 where
    pub mandate : MandateEntry
    pub known : get_mandate_by_id r id ≡ some mandate
    pub in_force : is_active_at mandate timestamp ≡ true
    pub keeps : Keeps mandate.rules

  -- An entry that names a mandate is accepted exactly when the mandate is known, in force at the
  -- timestamp, and each of its rules for the entry's event class finds the fields that it requires.
  pub validate_entry_against_mandates_iff :
      (r : MandateResolver) (timestamp : ℤ) (id : Bytes)
      → entry.mandate_ref ≡ some id
      → (validate_entry_against_mandates r (some entry) timestamp ≡ ok tt)
        ↔ Compliant r timestamp id
  unfolding validate_entry_against_mandates
  validate_entry_against_mandates_iff r timestamp id named = (forth, back)
    where
      forth :
          validate_entry_against_mandates r (some entry) timestamp ≡ ok tt
          → Compliant r timestamp id
      forth h = elim (Option-cases (get_mandate_by_id r id)) [
        | inl unknown ↦ absurd (ground arith)
        | inr (m, known) ↦ elim (Bool-cases (is_active_at m timestamp)) [
          | inl active ↦ record {
            mandate = m;
            known = known;
            in_force = active;
            keeps = (validate_rules_iff m.rules).0 (ground arith);
          }
          | inr idle ↦ absurd (ground arith)
        ]
      ]

      back :
          Compliant r timestamp id
          → validate_entry_against_mandates r (some entry) timestamp ≡ ok tt
      back c = ground (arith, c.known, c.in_force, (validate_rules_iff c.mandate.rules).1 c.keeps)
