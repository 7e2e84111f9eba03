-- ===== src/Validation/Mandates/InForce.antt =====
-- Which mandates GetActiveMandates returns.
use gleipnir.Prelude.{
  ◌≡◌, refl, sym, ap, ◌∙◌, ◌↔◌, ◌⊎◌, true, false, Bytes, bytes_eq, List, [], ◌∷◌, arith, Has,
  Bool-cases, inl, inr,
}
use gleipnir.Prelude.Int.{ℤ}
use gleipnir.Chain.Mandate.{MandateEntry, is_active_at}
use gleipnir.Validation.Mandates.{MandateResolver}
use gleipnir.Validation.Mandates.Queries.{
  bytes_less, insert_by_id, values, sort_by_id, all_mandates, supersedes_it, is_superseded,
  active_among, get_active_mandates,
}

Has-insert_by_id :
    (m x : MandateEntry) (ms : List MandateEntry) → Has m (insert_by_id x ms) ↔ ((m ≡ x) ⊎ Has m ms)
unfolding insert_by_id
Has-insert_by_id m x [] = ((λ h. h), (λ h. h))
Has-insert_by_id m x (y ∷ ys) = elim (Bool-cases (bytes_less x.id y.id)) [
  | inl first ↦ rw first ((λ h. h), (λ h. h))
  | inr later ↦
      let rest = Has-insert_by_id m x ys in
      rw later (
        (λ h. elim h [
          | inl here ↦ inr (inl here)
          | inr there ↦ elim (rest.0 there) [ inl it ↦ inl it | inr below ↦ inr (inr below) ]
        ]),
        (λ h. elim h [
          | inl it ↦ inr (rest.1 (inl it))
          | inr old ↦ elim old [ inl here ↦ inl here | inr below ↦ inr (rest.1 (inr below)) ]
        ]),
      )
]

Has-sort_by_id : (m : MandateEntry) (ms : List MandateEntry) → Has m (sort_by_id ms) ↔ Has m ms
unfolding sort_by_id
Has-sort_by_id m [] = ((λ h. h), (λ h. h))
Has-sort_by_id m (x ∷ xs) =
    let put = Has-insert_by_id m x (sort_by_id xs) in
    let rest = Has-sort_by_id m xs in
    (
      (λ h. elim (put.0 h) [ inl it ↦ inl it | inr there ↦ inr (rest.0 there) ]),
      (λ h. elim h [ inl it ↦ put.1 (inl it) | inr there ↦ put.1 (inr (rest.1 there)) ]),
    )

-- No mandate of the list supersedes the identifier.
abbrev pub Unsuperseded : List MandateEntry → Bytes → Type 0
Unsuperseded ms id = (m : MandateEntry) → Has m ms → supersedes_it m id ≡ false

is_superseded-Unsuperseded :
    (ms : List MandateEntry) (id : Bytes) → (is_superseded ms id ≡ false) ↔ Unsuperseded ms id
unfolding is_superseded
is_superseded-Unsuperseded [] id = ((λ h m there. elim there [ ]), (λ h. refl))
is_superseded-Unsuperseded (x ∷ xs) id =
    let rest = is_superseded-Unsuperseded xs id in
    (
      (λ h m there. elim there [
        | inl it ↦ ap (λ y. supersedes_it y id) it ∙ ground arith
        | inr below ↦ rest.0 (ground arith) m below
      ]),
      (λ h.
          let first = h x (inl refl) in
          let others = rest.1 (λ m there. h m (inr there)) in ground arith),
    )

true_not_false : (true ≡ false) → ⊥
true_not_false e = ground arith

Has-active_among :
    (all ms : List MandateEntry) (timestamp : ℤ) (m : MandateEntry)
    → Has m (active_among all timestamp ms)
      ↔ (Has m ms × (is_superseded all m.id ≡ false) × (is_active_at m timestamp ≡ true))
unfolding active_among
Has-active_among all [] timestamp m = ((λ h. elim h [ ]), (λ h. h.0))
Has-active_among all (x ∷ xs) timestamp m =
    let rest = Has-active_among all xs timestamp m in
    elim (Bool-cases (is_superseded all x.id)) [
      | inl over ↦ rw over (
        (λ h. let r = rest.0 h in (inr r.0, r.1, r.2)),
        (λ h. elim h.0 [
          | inl it ↦
              absurd (true_not_false (sym over ∙ (sym (ap (λ y. is_superseded all y.id) it) ∙ h.1)))
          | inr below ↦ rest.1 (below, h.1, h.2)
        ]),
      )
      | inr current ↦ elim (Bool-cases (is_active_at x timestamp)) [
        | inr out ↦
            rw (current, out)
              (
                (λ h. let r = rest.0 h in (inr r.0, r.1, r.2)),
                (λ h. elim h.0 [
                  | inl it ↦
                      absurd
                        (true_not_false (sym h.2 ∙ (ap (λ y. is_active_at y timestamp) it ∙ out)))
                  | inr below ↦ rest.1 (below, h.1, h.2)
                ]),
              )
        | inl valid ↦
            rw (current, valid)
              (
                (λ h. elim h [
                  | inl it ↦ (
                    inl it,
                    ap (λ y. is_superseded all y.id) it ∙ current,
                    ap (λ y. is_active_at y timestamp) it ∙ valid,
                  )
                  | inr below ↦ let r = rest.0 below in (inr r.0, r.1, r.2)
                ]),
                (λ h. elim h.0 [ inl it ↦ inl it | inr below ↦ inr (rest.1 (below, h.1, h.2)) ]),
              )
      ]
    ]

-- A mandate is among those in force at a time exactly where the resolver has it, its own span covers
-- that time, and no mandate that the resolver has supersedes it, whether that one is in force or not.
pub get_active_mandates_iff :
    (r : MandateResolver) (timestamp : ℤ) (m : MandateEntry)
    → Has m (get_active_mandates r timestamp)
      ↔ (Has m (values r) × (is_active_at m timestamp ≡ true) × Unsuperseded (values r) m.id)
unfolding get_active_mandates all_mandates
get_active_mandates_iff r timestamp m =
    let all = sort_by_id (values r) in
    let f = Has-active_among all all timestamp m in
    let u = is_superseded-Unsuperseded all m.id in
    let at = λ (x : MandateEntry). Has-sort_by_id x (values r) in
    (
      (λ h. let g = f.0 h in ((at m).0 g.0, g.2, (λ x there. u.0 g.1 x ((at x).1 there)))),
      (λ h. f.1 ((at m).1 h.0, u.1 (λ x there. h.2 x ((at x).0 there)), h.1)),
    )
