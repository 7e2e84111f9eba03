-- ===== src/Consensus/Triad/Lowest.antt =====
-- The proposer has the lowest gamma of all.
use gleipnir.Prelude.{
  ◌≡◌, refl, Bool, true, false, Bytes, bytes_eq, Option, none, some, List, [], ◌∷◌, arith, All, Has,
  Bool-cases, Option-cases, inl, inr, ◌⊎◌,
}
use gleipnir.Prelude.Table.{Table}
use gleipnir.Prelude.Results.{ok}
use gleipnir.Consensus.Peer.{Peer}
use gleipnir.Consensus.Triad.{
  less_than, Best, candidate_of, better, select_loop, select_proposer_vrf,
}

less_than_trans :
    (a b c : Bytes) → less_than a b ≡ true → less_than b c ≡ true → less_than a c ≡ true
unfolding less_than
less_than_trans [] [] c h k = absurd (ground arith)
less_than_trans [] (b ∷ bs) [] h k = absurd (ground arith)
less_than_trans [] (b ∷ bs) (c ∷ cs) h k = refl
less_than_trans (a ∷ as') [] c h k = absurd (ground arith)
less_than_trans (a ∷ as') (b ∷ bs) [] h k = absurd (ground arith)
less_than_trans (a ∷ as') (b ∷ bs) (c ∷ cs) h k = ground (arith, less_than_trans as' bs cs)

less_than_cotrans :
    (a b c : Bytes) → less_than c a ≡ false → less_than c b ≡ true → less_than a b ≡ true
unfolding less_than
less_than_cotrans [] [] [] h k = k
less_than_cotrans [] [] (c ∷ cs) h k = absurd (ground arith)
less_than_cotrans [] (b ∷ bs) c h k = refl
less_than_cotrans (a ∷ as') b [] h k = absurd (ground arith)
less_than_cotrans (a ∷ as') [] (c ∷ cs) h k = absurd (ground arith)
less_than_cotrans (a ∷ as') (b ∷ bs) (c ∷ cs) h k = ground (arith, less_than_cotrans as' bs cs)

less_than_irrefl : (a : Bytes) → less_than a a ≡ false
unfolding less_than
less_than_irrefl [] = refl
less_than_irrefl (a ∷ as') = ground (arith, less_than_irrefl as')

module _ {Proof : Type 0} (vrf_verify : Bytes → Bytes → Proof → Option Bytes) (alpha : Bytes)
    (proofs : Table Bytes Proof) where
  -- The peer has a proof that verifies, and its gamma is not below the given one.
  abbrev pub NotBelow : Bytes → Peer → Type 0
  NotBelow gamma p =
      (c : Best Proof) × (candidate_of vrf_verify alpha proofs p ≡ some c)
      × (less_than c.gamma gamma ≡ false)

  -- What stood before is not below either.
  abbrev Beaten : Option (Best Proof) → Bytes → Type 0
  Beaten none gamma = Unit
  Beaten (some best) gamma = less_than best.gamma gamma ≡ false

  abbrev Came : Option (Best Proof) → List Peer → Best Proof → Type 0
  Came best ps b =
      (best ≡ some b) ⊎ ((p : Peer) × Has p ps × (candidate_of vrf_verify alpha proofs p ≡ some b))

  record Lowest (best : Option (Best Proof)) (ps : List Peer) (b : Best Proof) : Type 0 where
    came : Came best ps b
    beaten : Beaten best b.gamma
    lowest : All (NotBelow b.gamma) ps

  better-beats :
      (best : Option (Best Proof)) (c : Best Proof) (gamma : Bytes)
      → less_than (better vrf_verify alpha best c).gamma gamma ≡ false
      → Beaten best gamma × (less_than c.gamma gamma ≡ false)
  unfolding better
  better-beats none c gamma h = (tt, h)
  better-beats (some best) c gamma h = elim (Bool-cases (less_than c.gamma best.gamma)) [
    | inl below ↦
        let low : less_than c.gamma gamma ≡ false = ground arith in
        (refused _ _ (λ k. less_than_trans c.gamma best.gamma gamma below k) low, low)
    | inr above ↦
        let low : less_than best.gamma gamma ≡ false = ground arith in
        (low, refused _ _ (λ k. less_than_cotrans best.gamma gamma c.gamma above k) low)
  ]
    where
      refused : (x y : Bool) → (x ≡ true → y ≡ true) → y ≡ false → x ≡ false
      refused false y f h = refl
      refused true y f h = absurd (ground (arith, f refl))

  Came-from :
      (best : Option (Best Proof)) (p : Peer) (ps : List Peer) (c b : Best Proof)
      → candidate_of vrf_verify alpha proofs p ≡ some c
      → Came (some (better vrf_verify alpha best c)) ps b
      → Came best (p ∷ ps) b
  unfolding better
  Came-from none p ps c b e (inl same) = inr (p, inl refl, ground arith)
  Came-from (some best) p ps c b e (inl same) = elim (Bool-cases (less_than c.gamma best.gamma)) [
    | inl below ↦ inr (p, inl refl, ground arith)
    | inr above ↦ inl (ground arith)
  ]
  Came-from best p ps c b e (inr (q, m, f)) = inr (q, inr m, f)

  select_loop_lem :
      (best : Option (Best Proof)) (ps : List Peer) (b : Best Proof)
      → select_loop vrf_verify alpha proofs best ps ≡ ok b
      → Lowest best ps b
  unfolding select_loop
  select_loop_lem none [] b h = absurd (ground arith)
  select_loop_lem (some best) [] b h = record {
    came = inl (ground arith);
    beaten = ground (arith, less_than_irrefl b.gamma);
    lowest = tt;
  }
  select_loop_lem best (p ∷ ps) b h = elim (Option-cases (candidate_of vrf_verify alpha proofs p)) [
    | inl missing ↦ absurd (ground arith)
    | inr (c, e) ↦
        let rest = select_loop_lem (some (better vrf_verify alpha best c)) ps b (ground arith) in
        let low = better-beats best c b.gamma rest.beaten in
        record {
          came = Came-from best p ps c b e rest.came;
          beaten = low.0;
          lowest = ((c, e, low.1), rest.lowest);
        }
  ]

  from_peer :
      (ps : List Peer) (b : Best Proof)
      → Came none ps b
      → (p : Peer) × Has p ps × (candidate_of vrf_verify alpha proofs p ≡ some b)
  from_peer ps b (inl absent) = absurd (ground arith)
  from_peer ps b (inr one) = one

  -- A proposer that is chosen is one of the peers, with a proof that verifies; every peer has such a
  -- proof, and no peer's gamma is below the proposer's.
  select_proposer_vrf_lowest :
      (ps : List Peer) (b : Best Proof)
      → select_proposer_vrf vrf_verify alpha ps proofs ≡ ok b
      → ((p : Peer) × Has p ps × (candidate_of vrf_verify alpha proofs p ≡ some b))
        × All (NotBelow b.gamma) ps
  unfolding select_proposer_vrf
  select_proposer_vrf_lowest ps b h =
      let l = select_loop_lem none ps b h in (from_peer ps b l.came, l.lowest)
