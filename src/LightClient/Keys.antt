-- ===== src/LightClient/Keys.antt =====
-- The keys that the client takes for a cycle are the validator's.
use gleipnir.Prelude.{ℕ, ◌≡◌, refl, Bytes, bytes_eq, some, List, [], ◌∷◌, arith, bytes_beq_iff}
use gleipnir.Prelude.Table.{Table, lookup, insert, lookup-insert}
use gleipnir.Prelude.Results.{Result, ok, err}
use gleipnir.Validation.KeyRotation.{Validator, RotationError, get_active_public_key}
use gleipnir.LightClient.{keys_of_ids, keys_for_cycle}

module _ (v : Validator) (cycle : ℕ) where
  -- The table holds authoritative keys only.
  abbrev Holds : Table Bytes (List Bytes) → Type 0
  Holds out =
      (id : Bytes) (ks : List Bytes)
      → lookup id out ≡ some ks
      → get_active_public_key v id cycle ≡ ok ks

  insert-Holds :
      (id : Bytes) (keys : List Bytes) (out : Table Bytes (List Bytes))
      → get_active_public_key v id cycle ≡ ok keys
      → Holds out
      → Holds (insert id keys out)
  insert-Holds id keys out e h j ks found =
      ground (arith, lookup-insert id j keys out, bytes_beq_iff id j, h j ks)

  keys_of_ids-Holds :
      (ids : Table Bytes Bytes) (out : Table Bytes (List Bytes))
      → Holds out
      → Holds (keys_of_ids v cycle ids out)
  unfolding keys_of_ids
  keys_of_ids-Holds [] out h = h
  keys_of_ids-Holds ((id, registered) ∷ ids) out h = keys_of_ids-Holds ids _ (added refl)
    where
      added :
          {r : Result RotationError (List Bytes)}
          → get_active_public_key v id cycle ≡ r
          → Holds (elim r [ ok keys ↦ insert id keys out | err e ↦ out ])
      added {r = ok keys} e = insert-Holds id keys out e h
      added {r = err x} e = h

  pub keys_for_cycle_lem :
      (id : Bytes) (ks : List Bytes)
      → lookup id (keys_for_cycle v cycle) ≡ some ks
      → get_active_public_key v id cycle ≡ ok ks
  unfolding keys_for_cycle lookup
  keys_for_cycle_lem = keys_of_ids-Holds v.validators [] (λ id ks e. absurd (ground arith))
