-- ===== src/Prelude/Table.antt =====
-- Go's maps as association lists. No code that is modelled depends on the order of a `range` over
-- a map, except where that is said.
use mathlib.Core.Path.{◌≡◌, refl}
use mathlib.Core.List.{List, [], ◌∷◌}
use mathlib.Core.Option.{Option, none, some}
use native.Mathlib.Omega.{arith}
use mathlib.Core.Logic.{inl, inr}
use mathlib.Core.Bool.{true}
use gleipnir.Prelude.Tests.{if◌then◌else◌, Bool-cases}
use gleipnir.Prelude.ByteStrings.{Eq, ◌==◌}

abbrev pub Table {ℓ κ} : Type ℓ → Type κ → Type (ℓ ⊔ κ)
Table K V = List (K × V)

apart {ℓ} : {K : Type ℓ} ⦃on : Eq K⦄ (a b c : K) → (a == b) ≡ true → (a == c) ≡ (b == c)
apart ⦃on⦄ a b c h = cc (on.test_sound a b h)

module _ {ℓ κ} {K : Type ℓ} {V : Type κ} ⦃on : Eq K⦄ where
  -- v, ok := m[k]
  unfoldable pub lookup : K → Table K V → Option V
  lookup key [] = none
  lookup key (entry ∷ rest) = if entry.0 == key then some entry.1 else lookup key rest

  -- m[k] = v: in the key's place, or behind the others.
  unfoldable pub insert : K → V → Table K V → Table K V
  insert key value [] = (key, value) ∷ []
  insert key value (entry ∷ rest) =
      let further = insert key value rest in
      if entry.0 == key then (key, value) ∷ rest else entry ∷ further

  -- delete(m, k)
  unfoldable pub delete : K → Table K V → Table K V
  delete key [] = []
  delete key (entry ∷ rest) =
      let further = delete key rest in if entry.0 == key then further else entry ∷ further

  pub lookup-insert :
      (key other : K) (value : V) (m : Table K V)
      → lookup other (insert key value m) ≡ (if key == other then some value else lookup other m)
  unfolding lookup insert
  lookup-insert key other value [] = refl
  lookup-insert key other value (entry ∷ rest) = elim (Bool-cases (entry.0 == key)) [
    | inl here ↦ rw (here, apart entry.0 key other here) (ground arith)
    | inr further ↦ elim (Bool-cases (entry.0 == other)) [
      | inl found ↦
          rw (further, found)
            (ground
              (arith, on.test_self key, on.test_sound entry.0 other found, on.test_sound key other))
      | inr missed ↦ rw (further, missed) (lookup-insert key other value rest)
    ]
  ]

  pub lookup-delete :
      (key other : K) (m : Table K V)
      → lookup other (delete key m) ≡ (if key == other then none else lookup other m)
  unfolding lookup delete
  lookup-delete key other [] = ground arith
  lookup-delete key other (entry ∷ rest) = elim (Bool-cases (entry.0 == key)) [
    | inl here ↦
        rw (here, apart entry.0 key other here) (ground (arith, lookup-delete key other rest))
    | inr further ↦ ground (
      arith,
      lookup-delete key other rest,
      on.test_self key,
      on.test_sound entry.0 other,
      on.test_sound key other,
    )
  ]

  pub lookup-insert_self :
      (key : K) (value : V) (m : Table K V) → lookup key (insert key value m) ≡ some value
  lookup-insert_self key value m = rw (lookup-insert key key value m, on.test_self key) refl
