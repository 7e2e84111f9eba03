-- ===== src/Engine/Submission.antt =====
-- Enqueue and Submit of pkg/consensus/engine.go. A refusal by the rate limiter may change the
-- limiter, so both give the engine back with the error.
use gleipnir.Prelude.{
  ℕ, Bool, true, not, Bytes, Option, none, some, [], ◌∷◌, ◌++◌, length, if◌then◌else◌, bytes_eq,
}
use gleipnir.Prelude.Int.{ℤ, pos, leb_ℤ}
use gleipnir.Prelude.Results.{Result, ok, err}
use gleipnir.Chain.{ProvenanceEntry}
use gleipnir.Validation.Mandates.{validate_entry_against_mandates}
use gleipnir.Consensus.Gossip.{MemoryBus, publish}
use gleipnir.Consensus.RateLimit.{allow}
use gleipnir.Engine.{
  Engine, EngineError, engine_stopped, rate_limited, mandate_failed, api_limits_of, check_entry,
  next_cycle,
}

-- e.rateLimiter == nil || e.rateLimiter.Allow(submitter)
unfoldable pub allows : Engine → Bytes → ℕ → Engine × Bool
allows e submitter now = elim e.rate_limiter [
  | none ↦ (e, true)
  | some sl ↦
      let answer = allow sl submitter now in (record e { rate_limiter = some answer.0 }, answer.1)
]

-- len(e.pending) >= cfg.MaxTotalPending
unfoldable pub is_full : Engine → Bool
is_full e = leb_ℤ (api_limits_of e).max_total_pending (pos (length e.pending))

-- e.pending = append(e.pending, entry), and markPendingChangedLocked.
unfoldable pub add_pending : Engine → ProvenanceEntry → ℕ → Engine
add_pending e entry now = record e {
  pending = e.pending ++ (entry ∷ []);
  last_pending_change = now;
}

abbrev publish_to : ProvenanceEntry → Option MemoryBus → Option MemoryBus
publish_to entry none = none
publish_to entry (some bus) = some (publish bus entry)

unfoldable pub enqueue : Engine → ProvenanceEntry → ℕ → Engine × Result EngineError (Unit {0})
enqueue e entry now =
    if e.stopped
    then (e, err engine_stopped)
    else elim (check_entry entry.hash entry.submitter entry.label (api_limits_of e)) [
      | err x ↦ (e, err x)
      | ok u ↦
          elim (validate_entry_against_mandates e.mandate_resolver (some entry) entry.timestamp) [
            | err x ↦ (e, err (mandate_failed x))
            | ok u' ↦
                if is_full e
                then (e, err rate_limited)
                else let asked = allows e entry.submitter now in
                  let added = add_pending asked.0 entry now in
                  if not asked.1
                  then (asked.0, err rate_limited)
                  else (record added { gossip = publish_to entry added.gossip }, ok tt)
          ]
    ]

-- chain.Ticket, whose status is always "pending".
pub record Ticket : Type 0 where
  pub hash : Bytes
  pub block_index : ℕ

-- The entry that Submit makes at the time `timestamp` of the clock.
unfoldable pub submitted : Bytes → Bytes → Bytes → ℤ → ProvenanceEntry
submitted hash submitter label timestamp = record {
  hash = hash;
  submitter = submitter;
  timestamp = timestamp;
  label = label;
  approver = none;
  reference = none;
  signature = [];
  mandate_ref = none;
}

unfoldable pub submit : Engine → Bytes → Bytes → Bytes → ℕ → Engine × Result EngineError Ticket
submit e hash submitter label now =
    if e.stopped
    then (e, err engine_stopped)
    else elim (check_entry hash submitter label (api_limits_of e)) [
      | err x ↦ (e, err x)
      | ok u ↦
          if is_full e
          then (e, err rate_limited)
          else let asked = allows e submitter now in
            let added = add_pending asked.0 (submitted hash submitter label (pos now)) now in
            if not asked.1
            then (asked.0, err rate_limited)
            else (added, ok (record { hash = hash; block_index = next_cycle added }))
    ]
