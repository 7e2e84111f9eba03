-- ===== src/Consensus/RateLimit.antt =====
-- pkg/consensus/ratelimit.go: how many entries a submitter may hand in within a sliding window. Time
-- is a number of nanoseconds; the clock's reading is the argument `now`. The locks are not modelled:
-- each method is one step.
pub mod Ideal
use gleipnir.Prelude.{
  ℕ, ◌+◌, ◌*◌, Bool, true, false, Bytes, bytes_eq, Option, none, some, List, [], ◌∷◌, ◌++◌, length,
  leb, ltb, map, if◌then◌else◌,
}
use gleipnir.Prelude.Table.{Table, lookup, insert, delete}

pub record SubmitterLimiter : Type 0 where
  pub windows : Table Bytes (List ℕ)
  pub max_per_window : ℕ
  pub window_dur : ℕ

unfoldable pub new_limiter : ℕ → ℕ → SubmitterLimiter
new_limiter max_per_window window_dur = record {
  windows = [];
  max_per_window = max_per_window;
  window_dur = window_dur;
}

-- The entries t with t.After(now.Add(-dur)).
unfoldable pub after_cutoff : ℕ → ℕ → List ℕ → List ℕ
after_cutoff dur now [] = []
after_cutoff dur now (t ∷ ts) =
    let rest = after_cutoff dur now ts in if ltb now (t + dur) then t ∷ rest else rest

-- A window that is not there is an empty one.
abbrev or_new : Option (List ℕ) → List ℕ
or_new none = []
or_new (some w) = w

unfoldable pub window_of : Table Bytes (List ℕ) → Bytes → List ℕ
window_of windows key = or_new (lookup key windows)

-- Allow
unfoldable pub allow : SubmitterLimiter → Bytes → ℕ → SubmitterLimiter × Bool
allow sl submitter now =
    let valid = after_cutoff sl.window_dur now (window_of sl.windows submitter) in
    if leb sl.max_per_window (length valid)
    then (record sl { windows = insert submitter valid sl.windows }, false)
    else (record sl { windows = insert submitter (valid ++ now ∷ []) sl.windows }, true)

-- What Cleanup leaves of one window.
abbrev keep : Bytes → List ℕ → Table Bytes (List ℕ) → Table Bytes (List ℕ)
keep key [] windows = delete key windows
keep key (t ∷ ts) windows = insert key (t ∷ ts) windows

-- The loop of Cleanup over the keys of the map.
unfoldable pub cleanup_keys : ℕ → ℕ → List Bytes → Table Bytes (List ℕ) → Table Bytes (List ℕ)
cleanup_keys dur now [] windows = windows
cleanup_keys dur now (key ∷ keys) windows =
    cleanup_keys dur now keys
      (keep key (after_cutoff (dur * 2) now (window_of windows key)) windows)

abbrev keys_of : Table Bytes (List ℕ) → List Bytes
keys_of = map λ kw. kw.0

-- Cleanup
unfoldable pub cleanup : SubmitterLimiter → ℕ → SubmitterLimiter
cleanup sl now = record sl {
  windows = cleanup_keys sl.window_dur now (keys_of sl.windows) sl.windows;
}
