-- ===== src/Engine/Transition.antt =====
-- Apply of pkg/state/apply.go. The arithmetic on float64 is `Floats`, no weight is a NaN, the value
-- that laplacian.Compute gives is the argument `computed`, and ComputeSupervisionRoot, a digest of
-- an encoding, the argument `supervision_root`.
use gleipnir.Prelude.{
  ℕ, ◌%◌, zero_bytes, Bool, false, not, ◌&&◌, ◌||◌, Bytes, bytes_eq, ◌==◌, List, [], ◌∷◌, length,
  leb, nat_beq, if◌then◌else◌,
}
use gleipnir.Prelude.Table.{Table}
use gleipnir.Prelude.Words.{add64}
use gleipnir.Prelude.Results.{Result, ok, err}
use gleipnir.Engine.{NodeState, NetworkState, Config, Floats, float_one}

pub data ApplyError : Type 0 where
  chain_broken network_fragmented : ApplyError

abbrev pub beats : List Bytes → Bytes → Bool
beats [] id = false
beats (h ∷ hs) id = id == h || beats hs id

module _ (fl : Floats) where
  -- The status after one cycle without a heartbeat.
  unfoldable pub decayed : ℕ → ℕ → ℕ
  decayed rate status = let s = fl.minus status rate in if fl.less s 0 then 0 else s

  unfoldable pub next_node : ℕ → Bool → NodeState → NodeState
  next_node rate hb n =
      if hb
      then record n { consecutive = add64 n.consecutive 1; status = float_one }
      else record n { consecutive = 0; status = decayed rate n.status }

  -- The loop over the nodes.
  unfoldable pub next_nodes : ℕ → List Bytes → Table Bytes NodeState → Table Bytes NodeState
  next_nodes rate hearts [] = []
  next_nodes rate hearts ((id, n) ∷ rest) =
      (id, next_node rate (beats hearts id) n) ∷ next_nodes rate hearts rest

  -- s.Lambda1 == 0
  abbrev is_zero : ℕ → Bool
  is_zero x = not (fl.less 0 x) && not (fl.less x 0)

  -- Graph and node count never change here, so what is computed anew hangs on the cycle alone.
  unfoldable pub next_lambda : NetworkState → Config → ℕ → ℕ
  next_lambda s cfg computed =
      if nat_beq cfg.lambda_interval 0 || is_zero s.lambda1
      then computed
      else if nat_beq (add64 s.cycle 1 % cfg.lambda_interval) 0
      then computed
      else s.lambda1

  abbrev next_state : NetworkState → Config → List Bytes → ℕ → NetworkState
  next_state s cfg hearts lambda = record s {
    cycle = add64 s.cycle 1;
    nodes = next_nodes cfg.decay_rate hearts s.nodes;
    lambda1 = lambda;
    supervision_root = zero_bytes 32;
  }

  unfoldable pub apply :
      (NetworkState → Bytes)
      → NetworkState
      → Bytes
      → List Bytes
      → Config
      → ℕ
      → Result ApplyError NetworkState
  apply supervision_root s prev_root hearts cfg computed =
      if not (nat_beq s.cycle 0) && not (prev_root == s.supervision_root)
      then err chain_broken
      else let lambda = next_lambda s cfg computed in
        let next = next_state s cfg hearts lambda in
        if leb 2 (length next.nodes) && fl.less lambda cfg.min_lambda1
        then err network_fragmented
        else ok (record next { supervision_root = supervision_root next })
