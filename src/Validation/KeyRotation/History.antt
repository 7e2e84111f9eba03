-- ===== src/Validation/KeyRotation/History.antt =====
-- The history of accepted rotations stays ordered.
use gleipnir.Prelude.{
  ℕ, ◌<◌, ◌≡◌, refl, subst, not, true, false, Bool, Bytes, some, List, [], ◌∷◌, ◌++◌, arith,
  bytes_eq, ◌==◌, if◌then◌else◌, Bool-cases, inl, inr,
}
use gleipnir.Prelude.Results.{ok, err}
use gleipnir.Prelude.Table.{insert, lookup-insert}
use gleipnir.Chain.KeyRotation.{KeyRotationEntry}
use gleipnir.Validation.KeyRotation.{
  Validator, duplicate, record_rotation, rotations_of, last_effective, last_rotation_cycle,
  not_newer, insert_sorted, taken,
}

-- Strictly later from one rotation to the next.
abbrev pub Ascending : List KeyRotationEntry → Type 0
Ascending [] = Unit
Ascending (r ∷ []) = Unit
Ascending (r ∷ r' ∷ rs) = (r.effective_cycle < r'.effective_cycle) × Ascending (r' ∷ rs)

-- The first rotation of an ordered history is no later than its last.
head_newer :
    (n : ℕ) (r : KeyRotationEntry) (rs : List KeyRotationEntry)
    → Ascending (r ∷ rs)
    → not_newer (last_effective (r ∷ rs)) n ≡ false
    → r.effective_cycle < n
unfolding last_effective
head_newer n r [] a h = ground arith
head_newer n r (r' ∷ rs) a h = omega (arith, a.0, head_newer n r' rs a.1 h)

module _ (e : KeyRotationEntry) where
  insert_sorted-append :
      (rs : List KeyRotationEntry)
      → Ascending rs
      → not_newer (last_effective rs) e.effective_cycle ≡ false
      → insert_sorted e rs ≡ rs ++ e ∷ []
  unfolding insert_sorted last_effective
  insert_sorted-append [] a h = refl
  insert_sorted-append (r ∷ []) a h = ground arith
  insert_sorted-append (r ∷ r' ∷ rs) a h =
      ground
        (arith, head_newer e.effective_cycle r (r' ∷ rs) a h, insert_sorted-append (r' ∷ rs) a.1 h)

  append-Ascending :
      (rs : List KeyRotationEntry)
      → Ascending rs
      → not_newer (last_effective rs) e.effective_cycle ≡ false
      → Ascending (rs ++ e ∷ [])
  unfolding last_effective
  append-Ascending [] a h = tt
  append-Ascending (r ∷ []) a h = (ground arith, tt)
  append-Ascending (r ∷ r' ∷ rs) a h = (a.0, append-Ascending (r' ∷ rs) a.1 h)

  not-taken :
      (rs : List KeyRotationEntry)
      → Ascending rs
      → not_newer (last_effective rs) e.effective_cycle ≡ false
      → taken e rs ≡ false
  unfolding taken last_effective
  not-taken [] a h = refl
  not-taken (r ∷ []) a h = ground arith
  not-taken (r ∷ r' ∷ rs) a h =
      ground (arith, head_newer e.effective_cycle r (r' ∷ rs) a h, not-taken (r' ∷ rs) a.1 h)

-- Every validator's history is strictly ordered by effective cycle.
abbrev pub IsOrdered : Validator → Type 0
IsOrdered v = (id : Bytes) → Ascending (rotations_of v id)

abbrev pub is_newer : Validator → KeyRotationEntry → Bool
is_newer v e = not (not_newer (last_rotation_cycle v e.submitter) e.effective_cycle)

abbrev pub recorded : Validator → KeyRotationEntry → Validator
recorded v e = record v {
  rotations = insert e.submitter (rotations_of v e.submitter ++ e ∷ []) v.rotations;
}

module _ (v : Validator) (e : KeyRotationEntry) where
  -- On an ordered history, a rotation later than its submitter's last one goes to the end of that
  -- history, and any other is refused as a duplicate.
  record_rotation_lem :
      IsOrdered v
      → record_rotation v (some e) ≡ (if is_newer v e then ok (recorded v e) else err duplicate)
  unfolding record_rotation last_rotation_cycle
  record_rotation_lem o = ground (
    arith,
    insert_sorted-append e (rotations_of v e.submitter) (o e.submitter),
    not-taken e (rotations_of v e.submitter) (o e.submitter),
  )

  rotations_of-recorded :
      (id : Bytes)
      → rotations_of (recorded v e) id
        ≡ (if e.submitter == id then rotations_of v e.submitter ++ e ∷ [] else rotations_of v id)
  unfolding rotations_of
  rotations_of-recorded id =
      rw (lookup-insert e.submitter id (rotations_of v e.submitter ++ e ∷ []) v.rotations)
        (ground arith)

  recorded-IsOrdered : IsOrdered v → is_newer v e ≡ true → IsOrdered (recorded v e)
  unfolding last_rotation_cycle
  recorded-IsOrdered o newer id =
      rw (rotations_of-recorded id) (elim (Bool-cases (e.submitter == id)) [
        | inl same ↦
            rw same (append-Ascending e (rotations_of v e.submitter) (o e.submitter) (ground arith))
        | inr other ↦ rw other (o id)
      ])

  -- Recording a rotation keeps every history ordered.
  record_rotation-IsOrdered :
      (v' : Validator) → IsOrdered v → record_rotation v (some e) ≡ ok v' → IsOrdered v'
  record_rotation-IsOrdered v' o h = elim (Bool-cases (is_newer v e)) [
    | inl newer ↦
        let same : recorded v e ≡ v' = ground (arith, record_rotation_lem o) in
        subst IsOrdered same (recorded-IsOrdered o newer)
    | inr old ↦ absurd (ground (arith, record_rotation_lem o))
  ]
