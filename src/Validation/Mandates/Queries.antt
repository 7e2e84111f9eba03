-- ===== src/Validation/Mandates/Queries.antt =====
-- pkg/validation/mandate_resolver.go: All, GetActiveMandates and GetLatestVersion. The lock is not
-- modelled. Identifiers are the keys of the map, so that sort.Slice has no ties to break.
use gleipnir.Prelude.{
  Bool, true, false, not, ◌&&◌, ◌||◌, Bytes, bytes_eq, ◌==◌, zero_bytes, Option, none, some, List,
  [], ◌∷◌, ltb, nat_beq, if◌then◌else◌,
}
use gleipnir.Prelude.Int.{ℤ}
use gleipnir.Chain.Mandate.{MandateEntry, is_active_at}
use gleipnir.Validation.Mandates.{MandateResolver, get_mandate_by_id}

-- bytesLess
unfoldable pub bytes_less : Bytes → Bytes → Bool
bytes_less [] [] = false
bytes_less [] (b ∷ bs) = true
bytes_less (a ∷ as') [] = false
bytes_less (a ∷ as') (b ∷ bs) =
    let rest = bytes_less as' bs in if not (nat_beq a b) then ltb a b else rest

unfoldable pub insert_by_id : MandateEntry → List MandateEntry → List MandateEntry
insert_by_id m [] = m ∷ []
insert_by_id m (x ∷ xs) =
    let rest = insert_by_id m xs in if bytes_less m.id x.id then m ∷ x ∷ xs else x ∷ rest

-- The map's values, and those in the order of their identifiers.
abbrev pub values : MandateResolver → List MandateEntry
values [] = []
values (entry ∷ rest) = entry.1 ∷ values rest

unfoldable pub sort_by_id : List MandateEntry → List MandateEntry
sort_by_id [] = []
sort_by_id (m ∷ ms) = insert_by_id m (sort_by_id ms)

unfoldable pub all_mandates : MandateResolver → List MandateEntry
all_mandates r = sort_by_id (values r)

-- m.Supersedes is set, and it is the identifier.
abbrev pub supersedes_it : MandateEntry → Bytes → Bool
supersedes_it m id = not (m.supersedes == zero_bytes 32) && m.supersedes == id

-- superseded[id]
unfoldable pub is_superseded : List MandateEntry → Bytes → Bool
is_superseded [] id = false
is_superseded (m ∷ ms) id = supersedes_it m id || is_superseded ms id

-- The loop of GetActiveMandates over the mandates.
unfoldable pub active_among : List MandateEntry → ℤ → List MandateEntry → List MandateEntry
active_among all timestamp [] = []
active_among all timestamp (m ∷ ms) =
    let rest = active_among all timestamp ms in
    if is_superseded all m.id then rest else if is_active_at m timestamp then m ∷ rest else rest

unfoldable pub get_active_mandates : MandateResolver → ℤ → List MandateEntry
get_active_mandates r timestamp = active_among (all_mandates r) timestamp (all_mandates r)

unfoldable pub get_mandate_by_reference : MandateResolver → Option Bytes → Option MandateEntry
get_mandate_by_reference r none = none
get_mandate_by_reference r (some id) = get_mandate_by_id r id

abbrev newer : Option MandateEntry → MandateEntry → Option MandateEntry
newer none m = some m
newer (some latest) m = if ltb latest.version m.version then some m else some latest

-- The loop of GetLatestVersion.
unfoldable pub latest_among : Bytes → Option MandateEntry → List MandateEntry → Option MandateEntry
latest_among root latest [] = latest
latest_among root latest (m ∷ ms) =
    latest_among root
      (if not (m.id == root) && (not (m.prev_version == root) && not (m.supersedes == root))
        then latest
        else newer latest m)
      ms

unfoldable pub get_latest_version : MandateResolver → Bytes → Option MandateEntry
get_latest_version r root = latest_among root none (all_mandates r)
