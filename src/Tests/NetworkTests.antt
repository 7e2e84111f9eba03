-- ===== src/Tests/NetworkTests.antt =====
-- The rate limiter, the choice of the proposer and the gossip bus at small inputs.
use gleipnir.Prelude.{
  ℕ, ◌≡◌, refl, Bytes, bytes_eq, bytes_beq, nat_eq, Option, none, some, List, [], ◌∷◌, arith,
}
use gleipnir.Prelude.Table.{Table, lookup, insert}
use gleipnir.Prelude.Results.{ok}
use gleipnir.Consensus.Peer.{Peer, peer_id, hex_encode}
use gleipnir.Consensus.RateLimit.{new_limiter}
use gleipnir.Consensus.RateLimit.Ideal
use gleipnir.Consensus.RateLimit.Ideal.{Call, asks, cleans, answers, ideal_answers}
use gleipnir.Consensus.Triad.{
  Best, select_proposer_vrf, select_loop, candidate_of, better, less_than,
}
use gleipnir.Consensus.Triad.Agreement
use gleipnir.Consensus.Triad.Agreement.{OneGamma}
use gleipnir.Consensus.Gossip.{MemoryBus, BlockSig, new_memory_bus, propose, get_proposed}
use gleipnir.Consensus.Gossip.Stable.{Write, proposes, signs, finalises}
use gleipnir.Tests.Fixtures.{toy_peer, toy_sig, candidate}

-- Two grants in ten units of time.
abbrev calls : List Call
calls = asks [] 0 ∷ asks [] 1 ∷ asks [] 2 ∷ cleans 30 ∷ asks [] 31 ∷ []

limiter_answers_example : answers (new_limiter 2 10) calls ≡ ideal_answers 2 10 (λ id. []) calls
limiter_answers_example =
    Ideal.limiter_answers 2 10 0 calls
      (omega arith, (omega arith, (omega arith, (omega arith, (omega arith, tt)))))

abbrev vrf_peer : ℕ → ℕ → Peer
vrf_peer i k = record (toy_peer i) { vrf_public_key = k ∷ [] }

abbrev vrf_peers : List Peer
vrf_peers = vrf_peer 1 6 ∷ vrf_peer 2 5 ∷ []

-- The gamma is the key; an empty proof does not verify.
abbrev key_gamma : Bytes → Bytes → Bytes → Option Bytes
key_gamma pk alpha [] = none
key_gamma pk alpha (x ∷ xs) = some pk

key_gamma-OneGamma : OneGamma key_gamma []
key_gamma-OneGamma pk [] other g h e f = absurd (ground arith)
key_gamma-OneGamma pk (x ∷ xs) [] g h e f = absurd (ground arith)
key_gamma-OneGamma pk (x ∷ xs) (y ∷ ys) g h e f = ground arith

abbrev shown : ℕ → Table Bytes Bytes
shown n = (b'0' ∷ b'1' ∷ [], n ∷ []) ∷ (b'0' ∷ b'2' ∷ [], n ∷ []) ∷ []

abbrev chosen : ℕ → Best Bytes
chosen n = record { peer = vrf_peer 2 5; proof = n ∷ []; gamma = 5 ∷ [] }

chooses : (n : ℕ) → select_proposer_vrf key_gamma [] vrf_peers (shown n) ≡ ok (chosen n)
unfolding select_proposer_vrf select_loop candidate_of better less_than peer_id hex_encode lookup
    bytes_beq
chooses n = refl

select_proposer_vrf_agree_example : (chosen 3).peer ≡ (chosen 4).peer
select_proposer_vrf_agree_example =
    Agreement.select_proposer_vrf_agree key_gamma [] key_gamma-OneGamma (shown 3) (shown 4)
      vrf_peers (chosen 3) (chosen 4) (chooses 3) (chooses 4)

abbrev bus : MemoryBus
bus = propose new_memory_bus candidate

has_candidate : get_proposed bus 0 ≡ some candidate
unfolding get_proposed propose new_memory_bus lookup insert
has_candidate = refl

abbrev vote : BlockSig
vote = record { cycle = 0; sig = toy_sig 1; signer_id = 1 ∷ [] }

abbrev writes : List Write
writes =
    proposes (record candidate { block_hash = 8 ∷ [] })
    ∷ signs vote
    ∷ finalises candidate
    ∷ signs vote
    ∷ []
