-- ===== src/Engine/Pool.antt =====
-- What an engine takes over from the bus at the start of a cycle.
use gleipnir.Prelude.{
  ℕ, ◌≡◌, refl, ◌∙◌, Bool, true, false, ◌||◌, Bytes, bytes_eq, bytes_beq_iff, none, some, List, [],
  ◌∷◌, ◌++◌, arith, Bool-cases, Option-cases, inl, inr,
}
use gleipnir.Chain.{ProvenanceEntry}
use gleipnir.Consensus.Gossip.{MemoryBus, snapshot}
use gleipnir.Engine.{Engine, knows, fresh, with_added, ingest}

pub knows-append :
    (xs ys : List ProvenanceEntry) (h : Bytes) → knows (xs ++ ys) h ≡ (knows xs h || knows ys h)
unfolding knows
knows-append [] ys h = refl
knows-append (x ∷ xs) ys h = ground (arith, knows-append xs ys h)

pub knows-fresh :
    (known es : List ProvenanceEntry) (h : Bytes)
    → (knows known h || knows (fresh known es) h) ≡ (knows known h || knows es h)
unfolding knows fresh
knows-fresh known [] h = refl
knows-fresh known (e ∷ es) h =
    let beq = bytes_beq_iff e.hash h in
    elim (Bool-cases (knows known e.hash)) [
      | inl held ↦ ground (arith, beq, knows-fresh known es h)
      | inr new ↦ ground (arith, beq, knows-fresh (e ∷ known) es h)
    ]

-- What is added comes from the bus.
pub fresh_among :
    (known es : List ProvenanceEntry) (h : Bytes)
    → knows es h ≡ false
    → knows (fresh known es) h ≡ false
unfolding knows fresh
fresh_among known [] h none_there = refl
fresh_among known (e ∷ es) h none_there = elim (Bool-cases (knows known e.hash)) [
  | inl held ↦ ground (arith, fresh_among known es h (ground arith))
  | inr new ↦ ground (arith, fresh_among (e ∷ known) es h (ground arith))
]

fresh_of_known :
    (known es : List ProvenanceEntry)
    → ((h : Bytes) → knows es h ≡ true → knows known h ≡ true)
    → fresh known es ≡ []
unfolding knows fresh
fresh_of_known known [] h = refl
fresh_of_known known (e ∷ es) h =
    let here : knows known e.hash ≡ true = h e.hash (ground (arith, bytes_beq_iff e.hash e.hash)) in
    let rest = fresh_of_known known es (λ x found. h x (ground arith)) in ground arith

knows-nothing : (h : Bytes) → knows [] h ≡ false
unfolding knows
knows-nothing h = refl

-- What an engine holds that may still be anchored.
abbrev pub holds : Engine → Bytes → Bool
holds e h = knows (e.pending_entries ++ e.pending) h

holds-with_added :
    (e : Engine) (now : ℕ) (added : List ProvenanceEntry) (h : Bytes)
    → holds (with_added e now added) h ≡ (holds e h || knows added h)
holds-with_added e now [] h = let n = knows-nothing h in ground arith
holds-with_added e now (x ∷ xs) h =
    let ours = e.pending_entries in
    rw
      (
        knows-append (ours ++ (x ∷ xs)) e.pending h,
        knows-append ours (x ∷ xs) h,
        knows-append ours e.pending h,
      )
      (ground arith)

with_added-retained :
    (e : Engine) (now : ℕ) (added : List ProvenanceEntry) (h : Bytes)
    → knows e.pending_entries h ≡ false
    → knows added h ≡ false
    → knows (with_added e now added).pending_entries h ≡ false
with_added-retained e now [] h old gone = old
with_added-retained e now (x ∷ xs) h old gone =
    rw (knows-append e.pending_entries (x ∷ xs) h, old) gone

pub ingest-retained :
    (e : Engine) (now : ℕ) (bus : MemoryBus) (h : Bytes)
    → e.gossip ≡ some bus
    → knows e.pending_entries h ≡ false
    → knows (snapshot bus) h ≡ false
    → knows (ingest e now).pending_entries h ≡ false
unfolding ingest
ingest-retained e now bus h connected old gone =
    let known = e.pending_entries ++ e.pending in
    let more = fresh known (snapshot bus) in
    ground (arith, with_added-retained e now more h old (fresh_among known (snapshot bus) h gone))

-- After reading the bus an engine holds the entries it held and those of the bus, no others.
holds-ingest :
    (e : Engine) (now : ℕ) (bus : MemoryBus) (h : Bytes)
    → e.gossip ≡ some bus
    → holds (ingest e now) h ≡ (holds e h || knows (snapshot bus) h)
unfolding ingest
holds-ingest e now bus h connected =
    let known = e.pending_entries ++ e.pending in
    let es = snapshot bus in
    ground (arith, holds-with_added e now (fresh known es) h, knows-fresh known es h)

with_added-gossip :
    (e : Engine) (now : ℕ) (added : List ProvenanceEntry)
    → (with_added e now added).gossip ≡ e.gossip
with_added-gossip e now [] = refl
with_added-gossip e now (x ∷ xs) = refl

pub ingest-gossip : (e : Engine) (now : ℕ) → (ingest e now).gossip ≡ e.gossip
unfolding ingest
ingest-gossip e now = elim (Option-cases e.gossip) [
  | inl alone ↦ ground arith
  | inr (bus, connected) ↦
      ground
        (arith, with_added-gossip e now (fresh (e.pending_entries ++ e.pending) (snapshot bus)))
]

ingest-alone : (e : Engine) (now : ℕ) → e.gossip ≡ none → ingest e now ≡ e
unfolding ingest
ingest-alone e now alone = ground arith

ingest-sated :
    (e : Engine) (now : ℕ) (bus : MemoryBus)
    → e.gossip ≡ some bus
    → fresh (e.pending_entries ++ e.pending) (snapshot bus) ≡ []
    → ingest e now ≡ e
unfolding ingest
ingest-sated e now bus connected nothing = ground arith

-- Reading the bus a second time adds nothing: no entry is taken over twice.
pub ingest_once : (e : Engine) (now later : ℕ) → ingest (ingest e now) later ≡ ingest e now
ingest_once e now later =
    let fed = ingest e now in
    let g = ingest-gossip e now in
    elim (Option-cases e.gossip) [
      | inl alone ↦ ingest-alone fed later (g ∙ alone)
      | inr (bus, connected) ↦ ingest-sated fed later bus (g ∙ connected) (
          fresh_of_known (fed.pending_entries ++ fed.pending) (snapshot bus)
            (λ h found. ground (arith, holds-ingest e now bus h connected)))
    ]
