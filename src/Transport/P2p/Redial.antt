-- ===== src/Transport/P2p/Redial.antt =====
-- redialLoop with rememberPeer: what becomes of the addresses of a peer that cannot be reached.
use mathlib.Core.List.{append-nil}
use gleipnir.Prelude.{
  ℕ, zero, suc, ◌+◌, ◌*◌, ◌^◌, ◌≡◌, refl, ap, sym, ◌∙◌, subst, inl, inr, Bool-cases, Bool, true,
  false, Bytes, bytes_eq, ◌==◌, Option, some, List, [], ◌∷◌, ◌++◌, length, ltb, arith,
  length-append,
}
use gleipnir.Prelude.Table.{Table, lookup, insert, lookup-insert, lookup-insert_self}
use native.Mathlib.Nat.{pow-succ'}
use gleipnir.Consensus.Gossip.{or_nothing}
use gleipnir.Transport.P2p.{
  GossipBus, remember_peer, dial, Attempts, too_soon, redial_retry_interval, redial_period,
  redial_one, redial_each, redial_round, redial_rounds,
}

dial-known :
    (b : GossipBus) (id other : Bytes) (addrs : List Bytes)
    → (id == other) ≡ false
    → lookup other (dial b id addrs).known_addrs ≡ lookup other b.known_addrs
unfolding dial remember_peer
dial-known b id other [] apart = refl
dial-known b id other (a ∷ as') apart = elim (Bool-cases (id == b.host_id)) [
  | inl own ↦ rw own refl
  | inr peer ↦
      rw
        (
          peer,
          lookup-insert id other (or_nothing (lookup id b.known_addrs) ++ (a ∷ as')) b.known_addrs,
          apart,
        )
        refl
]

dial-own :
    (b : GossipBus) (id : Bytes) (addrs old : List Bytes)
    → (id == b.host_id) ≡ false
    → lookup id b.known_addrs ≡ some old
    → lookup id (dial b id addrs).known_addrs ≡ some (old ++ addrs)
unfolding dial remember_peer
dial-own b id [] old peer known = rw (append-nil old) known
dial-own b id (a ∷ as') old peer known =
    rw (peer, known, lookup-insert_self id (old ++ (a ∷ as')) b.known_addrs) refl

dial-host :
    (b : GossipBus) (id : Bytes) (addrs : List Bytes) → (dial b id addrs).host_id ≡ b.host_id
unfolding dial remember_peer
dial-host b id [] = refl
dial-host b id (a ∷ as') = ground arith

module _ (is_connected : Bytes → Bool) (now : ℕ) (id : Bytes) where
  -- The state at the peer: its addresses, and when it was dialled last.
  pub record At (s : GossipBus × Attempts) (addrs : List Bytes) (tried : Option ℕ) : Type 0 where
    pub host : (id == s.0.host_id) ≡ false
    pub known : lookup id s.0.known_addrs ≡ some addrs
    pub last : lookup id s.1 ≡ tried

  -- Another peer's turn.
  redial_one-other :
      (other : Bytes) (as' addrs : List Bytes) (tried : Option ℕ) (s : GossipBus × Attempts)
      → (other == id) ≡ false
      → At s addrs tried
      → At (redial_one now other as' s) addrs tried
  unfolding redial_one
  redial_one-other other as' addrs tried s apart at =
      elim (Bool-cases (too_soon (lookup other s.1) now)) [
        | inl early ↦ rw early at
        | inr due ↦
            let host : (id == (dial s.0 other as').host_id) ≡ false =
              rw (dial-host s.0 other as') at.host in
            let known : lookup id (dial s.0 other as').known_addrs ≡ some addrs =
              rw (dial-known s.0 other id as' apart) at.known in
            let last : lookup id (insert other now s.1) ≡ tried =
              rw (lookup-insert other id now s.1, apart) at.last in
            rw due (record { host = host; known = known; last = last })
      ]

  -- Its own turn, where it is due, and where it is not.
  redial_one-own :
      (as' addrs : List Bytes) (tried : Option ℕ) (s : GossipBus × Attempts)
      → too_soon tried now ≡ false
      → At s addrs tried
      → At (redial_one now id as' s) (addrs ++ as') (some now)
  unfolding redial_one
  redial_one-own as' addrs tried s due at =
      let host : (id == (dial s.0 id as').host_id) ≡ false = rw (dial-host s.0 id as') at.host in
      let last : lookup id (insert id now s.1) ≡ some now = lookup-insert_self id now s.1 in
      rw (redial_one, at.last, due)
        (record { host = host; known = dial-own s.0 id as' addrs at.host at.known; last = last })

  now_is_soon : ltb now (now + redial_retry_interval) ≡ true
  now_is_soon = ground arith

  redial_one-again :
      (other : Bytes) (as' addrs : List Bytes) (s : GossipBus × Attempts)
      → At s addrs (some now)
      → At (redial_one now other as' s) addrs (some now)
  unfolding redial_one
  redial_one-again other as' addrs s at = elim (Bool-cases (other == id)) [
    | inr apart ↦ redial_one-other other as' addrs (some now) s apart at
    | inl same ↦
        subst (λ x. At (redial_one now x as' s) addrs (some now))
          (sym (bytes_eq.test_sound other id same)) (rw (redial_one, at.last, now_is_soon) at)
  ]

  redial_each-again :
      (cs : Table Bytes (List Bytes)) (addrs : List Bytes) (s : GossipBus × Attempts)
      → At s addrs (some now)
      → At (redial_each is_connected now cs s) addrs (some now)
  unfolding redial_each
  redial_each-again [] addrs s at = at
  redial_each-again (c ∷ cs) addrs s at = elim (Bool-cases (is_connected c.0)) [
    | inl reached ↦ rw reached (redial_each-again cs addrs s at)
    | inr missing ↦ rw missing (
        redial_each-again cs addrs (redial_one now c.0 c.1 s) (redial_one-again c.0 c.1 addrs s at))
  ]

  redial_each-once :
      (cs : Table Bytes (List Bytes)) (as' addrs : List Bytes) (tried : Option ℕ)
      (s : GossipBus × Attempts)
      → too_soon tried now ≡ false
      → is_connected id ≡ false
      → lookup id cs ≡ some as'
      → At s addrs tried
      → At (redial_each is_connected now cs s) (addrs ++ as') (some now)
  unfolding redial_each lookup
  redial_each-once [] as' addrs tried s due missing found at = absurd (ground arith)
  redial_each-once (c ∷ cs) as' addrs tried s due missing found at = elim (Bool-cases (c.0 == id)) [
    | inl same ↦
        let it : c.0 ≡ id = bytes_eq.test_sound c.0 id same in
        let own : At (redial_one now c.0 c.1 s) (addrs ++ as') (some now) =
          subst (λ x. At (redial_one now x c.1 s) (addrs ++ as') (some now)) (sym it)
            (subst (λ x. At (redial_one now id x s) (addrs ++ as') (some now))
              (ground (arith, found)) (redial_one-own as' addrs tried s due at)) in
        let gone : is_connected c.0 ≡ false =
          subst (λ x. is_connected x ≡ false) (sym it) missing in
        rw gone (redial_each-again cs (addrs ++ as') (redial_one now c.0 c.1 s) own)
    | inr apart ↦
        let later : lookup id cs ≡ some as' = ground (arith, found) in
        elim (Bool-cases (is_connected c.0)) [
          | inl reached ↦ rw reached (redial_each-once cs as' addrs tried s due missing later at)
          | inr gone ↦ rw gone (
              redial_each-once cs as' addrs tried (redial_one now c.0 c.1 s) due missing later
                (redial_one-other c.0 c.1 addrs tried s apart at))
        ]
  ]

doubled : (n p q m : ℕ) → m ≡ (n + n) * p → q ≡ 2 * p → m ≡ n * q
doubled n p q m h e = rw (h, e) (grind arith)

-- While a peer is not connected, each round of redialLoop that dials it doubles the addresses that are
-- kept of it: after k rounds, one each period, there are 2^k times as many as at first. The peer is
-- not this node, is known, and was not dialled within the retry interval before the first round.
pub redial_rounds-doubles :
    (is_connected : Bytes → Bool) (id : Bytes) (k now : ℕ) (addrs : List Bytes)
    (s : GossipBus × Attempts)
    → is_connected id ≡ false
    → (id == s.0.host_id) ≡ false
    → lookup id s.0.known_addrs ≡ some addrs
    → too_soon (lookup id s.1) now ≡ false
    → (final : List Bytes) × (lookup id (redial_rounds is_connected k now s).0.known_addrs
        ≡ some final)
      × (length final ≡ length addrs * 2 ^ k)
unfolding redial_rounds redial_round
redial_rounds-doubles is_connected id zero now addrs s missing host known due =
    (addrs, known, omega arith)
redial_rounds-doubles is_connected id (suc k) now addrs s missing host known due =
    let at =
      redial_each-once is_connected now id s.0.known_addrs addrs addrs (lookup id s.1) s due missing
        known (record { host = host; known = known; last = refl }) in
    let later : too_soon (lookup id (redial_round is_connected now s).1) (now + redial_period)
        ≡ false =
      rw (redial_round, at.last) (ground arith) in
    let rest =
      redial_rounds-doubles is_connected id k (now + redial_period) (addrs ++ addrs)
        (redial_round is_connected now s) missing at.host at.known later in
    (
      rest.0,
      rest.1,
      doubled (length addrs) (2 ^ k) (2 ^ suc k) (length rest.0)
          (rest.2 ∙ ap (λ (n : ℕ). n * 2 ^ k) (length-append addrs addrs)) (pow-succ' 2 k),
    )
