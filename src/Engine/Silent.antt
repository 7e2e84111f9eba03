-- ===== src/Engine/Silent.antt =====
-- RunCycle gives state.Apply this node's own heartbeat and no other: what becomes of the others.
use gleipnir.Prelude.{
  ℕ, ◌≡◌, refl, sym, ap, ◌∙◌, subst, Bool, true, false, Bytes, bytes_eq, ◌==◌, bytes_beq_iff, none,
  some, List, [], ◌∷◌, arith, Bool-cases, Option-cases, inl, inr,
}
use gleipnir.Prelude.Table.{Table, lookup}
use gleipnir.Prelude.Results.{err}
use gleipnir.Chain.{ProvenanceEntry}
use gleipnir.Consensus.Peer.{Peer, peer_id}
use gleipnir.Engine.{Engine, NodeState, Floats}
use gleipnir.Engine.Transition.{beats, decayed, next_node, next_nodes}
use gleipnir.Engine.Prepare.{Env, Waits, own_id, is_inactive, with_proposer, proposer_inactive}
use gleipnir.Engine.Ledger.{Ledger, perform-Ledger}
use gleipnir.Engine.Operations.{Operation, perform, perform_all}

-- What float64 does: 0 is not above 0, and what is not above 0 is not when the rate is taken off.
abbrev pub Sinks : Floats → ℕ → Type 0
Sinks fl rate =
    (fl.less 0 0 ≡ false) × ((s : ℕ) → fl.less 0 s ≡ false → fl.less 0 (fl.minus s rate) ≡ false)

module _ (fl : Floats) (rate : ℕ) (sinks : Sinks fl rate) where
  -- The status that the table has for an identifier is not above 0.
  abbrev Down : Bytes → Table Bytes NodeState → Type 0
  Down id nodes = (n : NodeState) → lookup id nodes ≡ some n → fl.less 0 n.status ≡ false

  decayed-Down : (s : ℕ) → fl.less 0 s ≡ false → fl.less 0 (decayed fl rate s) ≡ false
  unfolding decayed
  decayed-Down s low = ground (arith, sinks.0, sinks.1 s low)

  next_nodes-found :
      (hearts : List Bytes) (id : Bytes) (nodes : Table Bytes NodeState)
      → lookup id (next_nodes fl rate hearts nodes) ≡ elim (lookup id nodes) [
        | none ↦ none
        | some n ↦ some (next_node fl rate (beats hearts id) n)
      ]
  unfolding next_nodes lookup
  next_nodes-found hearts id [] = refl
  next_nodes-found hearts id ((other, n) ∷ rest) = elim (Bool-cases (other == id)) [
    | inl it ↦
        let same : other ≡ id = (bytes_beq_iff other id).0 it in
        rw it (ap (λ i. some (next_node fl rate (beats hearts i) n)) same)
    | inr further ↦ rw further (next_nodes-found hearts id rest)
  ]

  next_nodes-inactive :
      (e e' : Engine) (id : Bytes) (hearts : List Bytes)
      → e'.state.nodes ≡ next_nodes fl rate hearts e.state.nodes
      → beats hearts id ≡ false
      → is_inactive fl e id ≡ true
      → is_inactive fl e' id ≡ true
  unfolding is_inactive next_node
  next_nodes-inactive e e' id hearts moved silent down =
      let found = ap (lookup id) moved ∙ next_nodes-found hearts id e.state.nodes in
      elim (Option-cases (lookup id e.state.nodes)) [
        | inl missing ↦ absurd (ground arith)
        | inr (n, there) ↦
            let low : fl.less 0 n.status ≡ false = ground arith in
            let sunk = decayed-Down n.status low in
            let now : lookup id e'.state.nodes ≡ some (next_node fl rate false n) =
              found ∙ rw (there, silent) refl in
            rw (is_inactive, now, sunk) refl
      ]

module _ (env : Env) where
  inactive-Ledger :
      (e e' : Engine) (id : Bytes)
      → Ledger env e e'
      → Sinks env.floats e.cfg.decay_rate
      → (id == own_id e) ≡ false
      → is_inactive env.floats e id ≡ true
      → is_inactive env.floats e' id ≡ true
  unfolding is_inactive
  inactive-Ledger e e' id (inl s) sinks other down = rw s.4 down
  inactive-Ledger e e' id (inr g) sinks other down =
      next_nodes-inactive env.floats e.cfg.decay_rate sinks e e' id (own_id e ∷ []) g.beaten
        (ground arith) down

  Ledger-node : (e e' : Engine) → Ledger env e e' → e'.node ≡ e.node
  Ledger-node e e' (inl s) = s.2
  Ledger-node e e' (inr g) = g.same_node

  Ledger-cfg : (e e' : Engine) → Ledger env e e' → e'.cfg ≡ e.cfg
  Ledger-cfg e e' (inl s) = s.3
  Ledger-cfg e e' (inr g) = g.same_cfg

  inactive_stays :
      (ops : List Operation) (e : Engine) (id : Bytes)
      → Sinks env.floats e.cfg.decay_rate
      → (id == own_id e) ≡ false
      → is_inactive env.floats e id ≡ true
      → is_inactive env.floats (perform_all env e ops) id ≡ true
  inactive_stays [] e id sinks other down = down
  inactive_stays (op ∷ ops) e id sinks other down =
      let next = perform env e op in
      let step = perform-Ledger env e op in
      inactive_stays ops next id
        (subst (λ c. Sinks env.floats c.decay_rate) (sym (Ledger-cfg e next step)) sinks)
        (subst (λ n. (id == peer_id n.uid) ≡ false) (sym (Ledger-node e next step)) other)
        (inactive-Ledger e next id step sinks other down)

  -- Once an engine counts another validator as inactive, it does so for ever, whatever operations are
  -- called on it and whatever is on the bus: each PREPARE phase that this validator leads fails there.
  pub inactive_for_ever :
      (w : Waits) (ops : List Operation) (e : Engine) (p : Peer) (cycle : ℕ)
      (entries : List ProvenanceEntry) (check : Bool) (required now : ℕ)
      → Sinks env.floats e.cfg.decay_rate
      → (peer_id p == own_id e) ≡ false
      → is_inactive env.floats e (peer_id p) ≡ true
      → with_proposer env w (perform_all env e ops) p cycle entries check required now
        ≡ (perform_all env e ops, err proposer_inactive)
  unfolding with_proposer
  inactive_for_ever w ops e p cycle entries check required now sinks other down =
      rw (inactive_stays ops e (peer_id p) sinks other down) refl
