-- ===== src/Validation/KeyRotation/Keys.antt =====
-- Which keys a validator may sign with in a cycle.
use gleipnir.Prelude.{
  Has, inl, ℕ, ◌+◌, ◌≤◌, ◌<◌, ◌≡◌, refl, Bytes, List, [], ◌∷◌, ◌++◌, arith, if◌then◌else◌, leb,
  ◌&&◌, bytes_eq,
}
use native.Mathlib.Decide.{dec_lt, ℕ_discrete}
use gleipnir.Chain.KeyRotation.{KeyRotationEntry, in_overlap}
use gleipnir.Validation.KeyRotation.{active_keys}

-- Each window is an interval, and is over before the next one opens.
abbrev pub Separated : List KeyRotationEntry → Type 0
Separated [] = Unit
Separated (r ∷ []) = r.effective_cycle ≤ r.expiry_cycle
Separated (r ∷ r' ∷ rs) =
    (r.effective_cycle ≤ r.expiry_cycle)
    × (r.expiry_cycle < r'.effective_cycle)
    × Separated (r' ∷ rs)

-- The keys by their terms of office: a key serves from its own effective cycle until the overlap of
-- its successor is over, and the last one has no end.
abbrev pub in_office : Bytes → ℕ → List KeyRotationEntry → ℕ → List Bytes
in_office key since [] cycle = if leb since cycle then key ∷ [] else []
in_office key since (r ∷ rs) cycle =
    (if leb since cycle && leb cycle r.expiry_cycle then key ∷ [] else [])
    ++ in_office r.new_public_key r.effective_cycle rs cycle

in_office_later :
    (key : Bytes) (r : KeyRotationEntry) (rs : List KeyRotationEntry) (cycle : ℕ)
    → Separated (r ∷ rs)
    → cycle < r.effective_cycle
    → in_office key r.effective_cycle rs cycle ≡ []
in_office_later key r [] cycle s h = ground arith
in_office_later key r (r' ∷ rs) cycle s h =
    ground (arith, in_office_later r'.new_public_key r' rs cycle s.2 (omega arith))

active_keys_since :
    (key : Bytes) (since : ℕ) (rs : List KeyRotationEntry) (cycle : ℕ)
    → since ≤ cycle
    → Separated rs
    → active_keys key rs cycle ≡ in_office key since rs cycle
unfolding active_keys in_overlap
active_keys_since key since [] cycle h s = ground arith
active_keys_since key since (r ∷ []) cycle h s = ground arith
active_keys_since key since (r ∷ r' ∷ rs) cycle h s = ground (
  arith,
  active_keys_since r.new_public_key r.effective_cycle (r' ∷ rs) cycle,
  in_office_later r.new_public_key r (r' ∷ rs) cycle s,
  in_office_later r'.new_public_key r' rs cycle s.2,
)

module _ (key : Bytes) (rs : List KeyRotationEntry) (cycle : ℕ) where
  -- Where the windows of a history are separated, the authoritative keys of a cycle are those in
  -- office: the registered key until the first overlap is over, and each incoming key from its
  -- effective cycle until the overlap of the next rotation is over.
  pub active_keys-eq-in_office : Separated rs → active_keys key rs cycle ≡ in_office key 0 rs cycle
  active_keys-eq-in_office s = active_keys_since key 0 rs cycle (omega arith) s

-- The first window of the history is not over.
abbrev FirstOpen : List KeyRotationEntry → ℕ → Type 0
FirstOpen [] cycle = Unit
FirstOpen (r ∷ rs) cycle = cycle ≤ r.expiry_cycle

active_keys_first :
    (key : Bytes) (rs : List KeyRotationEntry) (cycle : ℕ)
    → FirstOpen rs cycle
    → Has key (active_keys key rs cycle)
unfolding active_keys in_overlap
active_keys_first key [] cycle h = inl refl
active_keys_first key (r ∷ rs) cycle h = ground arith

active_keys_closed :
    (key : Bytes) (r : KeyRotationEntry) (rs : List KeyRotationEntry) (cycle : ℕ)
    → r.effective_cycle ≤ r.expiry_cycle
    → r.expiry_cycle < cycle
    → active_keys key (r ∷ rs) cycle ≡ active_keys r.new_public_key rs cycle
unfolding active_keys in_overlap
active_keys_closed key r rs cycle h k = ground arith

abbrev Bridges : Bytes → List KeyRotationEntry → ℕ → Type 0
Bridges key rs cycle =
    (k : Bytes) × Has k (active_keys key rs cycle) × Has k (active_keys key rs (cycle + 1))

Separated-head :
    (r : KeyRotationEntry) (rs : List KeyRotationEntry)
    → Separated (r ∷ rs)
    → r.effective_cycle ≤ r.expiry_cycle
Separated-head r [] s = s
Separated-head r (r' ∷ rs) s = s.0

Separated-tail :
    (r : KeyRotationEntry) (rs : List KeyRotationEntry) → Separated (r ∷ rs) → Separated rs
Separated-tail r [] s = tt
Separated-tail r (r' ∷ rs) s = s.2

Separated-open :
    (r : KeyRotationEntry) (rs : List KeyRotationEntry) (cycle : ℕ)
    → Separated (r ∷ rs)
    → cycle ≤ r.expiry_cycle + 1
    → FirstOpen rs cycle
Separated-open r [] cycle s h = tt
Separated-open r (r' ∷ rs) cycle s h = omega (arith, s.1, Separated-head r' rs s.2)

-- In the last cycle of an overlap the incoming key is accepted, as it is in the next cycle.
bridge_at_expiry :
    (key : Bytes) (r : KeyRotationEntry) (rs : List KeyRotationEntry) (cycle : ℕ)
    → Separated (r ∷ rs)
    → cycle ≡ r.expiry_cycle
    → Bridges key (r ∷ rs) cycle
unfolding active_keys in_overlap
bridge_at_expiry key r rs cycle s h = (
  r.new_public_key,
  ground (arith, Separated-head r rs s),
  rw (active_keys_closed key r rs (cycle + 1) (Separated-head r rs s) (omega arith)) (
      active_keys_first r.new_public_key rs (cycle + 1)
        (Separated-open r rs (cycle + 1) s (omega arith))),
)

bridge_closed :
    (key : Bytes) (r : KeyRotationEntry) (rs : List KeyRotationEntry) (cycle : ℕ)
    → Separated (r ∷ rs)
    → r.expiry_cycle < cycle
    → Bridges r.new_public_key rs cycle
    → Bridges key (r ∷ rs) cycle
bridge_closed key r rs cycle s h b =
    rw
      (
        active_keys_closed key r rs cycle (Separated-head r rs s) h,
        active_keys_closed key r rs (cycle + 1) (Separated-head r rs s) (omega arith),
      )
      b

-- Where the windows of a history are separated, some key is authoritative in every two cycles that
-- follow one another.
active_keys_bridge :
    (key : Bytes) (rs : List KeyRotationEntry) (cycle : ℕ)
    → Separated rs
    → (k : Bytes) × Has k (active_keys key rs cycle) × Has k (active_keys key rs (cycle + 1))
active_keys_bridge key [] cycle s =
    (key, active_keys_first key [] cycle tt, active_keys_first key [] (cycle + 1) tt)
active_keys_bridge key (r ∷ rs) cycle s = elim (dec_lt cycle r.expiry_cycle) [
  | yes h ↦ (
    key,
    active_keys_first key (r ∷ rs) cycle (omega arith),
    active_keys_first key (r ∷ rs) (cycle + 1) (omega arith),
  )
  | no h ↦ elim (ℕ_discrete cycle r.expiry_cycle) [
    | yes e ↦ bridge_at_expiry key r rs cycle s e
    | no n ↦
        bridge_closed key r rs cycle s (omega arith)
          (active_keys_bridge r.new_public_key rs cycle (Separated-tail r rs s))
  ]
]

-- A second rotation whose window lies inside the first one's: while the first window is open its
-- own two keys are all that is accepted, and the cycle after it only the second incoming key is.
pub nested_window_no_bridge :
    (key : Bytes) (r r' : KeyRotationEntry)
    → r.effective_cycle < r'.effective_cycle
    → r'.effective_cycle ≤ r'.expiry_cycle
    → r'.expiry_cycle ≤ r.expiry_cycle
    → (active_keys key (r ∷ r' ∷ []) r.expiry_cycle ≡ key ∷ r.new_public_key ∷ [])
      × (active_keys key (r ∷ r' ∷ []) (r.expiry_cycle + 1) ≡ r'.new_public_key ∷ [])
unfolding active_keys in_overlap
nested_window_no_bridge key r r' h k l = ground arith
