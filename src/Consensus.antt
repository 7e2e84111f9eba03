-- ===== src/Consensus.antt =====
-- pkg/consensus: the parts of a cycle, and the rate limit on entries.
pub mod RateLimit
pub mod Triad
pub mod Gossip
pub mod Peer
pub mod Quorum
pub mod Commit
pub mod Degraded
