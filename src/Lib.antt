-- ===== src/Lib.antt =====
-- Gleipnir: a model of the consensus core of an immutable provenance chain, a Go program.
--
-- Validators take turns to lead. In a cycle the peers' VRF proofs choose the proposer
-- (consensus/triad.go), which publishes a candidate block on the gossip bus (consensus/gossip.go).
-- The peers sign the candidate's hash (PREPARE); from the signatures that it has collected the
-- leader writes a bitmap of the signers and their signatures into the final block, signs the hash
-- (COMMIT), and the others check what it wrote (consensus/commit.go). Where too few validators are
-- left, degraded mode lets one signature finalise a block (consensus/degraded.go). Which key a
-- validator may sign with in a cycle follows from its recorded key rotations
-- (validation/key_rotation.go). Mandates say which events must be anchored, and a report on a window
-- names those that are not (validation/compliance_checker.go). Entries are admitted under a rate
-- limit (consensus/ratelimit.go), and their hashes are kept in a sparse Merkle tree (smt/smt.go).
-- The engine (consensus/engine.go) runs the phases in a cycle and keeps the chain; a light client
-- (lightclient/service.go) checks its blocks, and sub-chains (consensus/subchain.go) anchor their roots
-- in it.
--
-- Files (paths below pkg/):
-- - Prelude: shared names, the Boolean tests, byte strings, maps as association lists, Go's uint64
--   arithmetic, results and bits of a byte string.
-- - Chain, Chain/BlockHash, Chain/KeyRotation: chain/block.go (Block, QuorumConfig,
--   ComputeBlockHash, VerifyHash) and chain/key_rotation.go (KeyRotationEntry and its builders).
-- - Identity/Dilithium: identity/dilithium.go, VerifyDilithium and SignDilithium. Identity/Registry:
--   identity/registry.go and the payload of identity/signature.go.
-- - Validation/KeyRotation: validation/key_rotation.go, the methods of KeyRotationValidator;
--   below it Rules (Validate), Built (what the builders of chain/key_rotation.go make), History
--   (RecordRotation) and Keys (GetActivePublicKey).
-- - Chain/Mandate: MandateEntry and Rule of chain/block.go, and chain/mandate_signature.go.
-- - Validation/Mandates: validation/mandate_resolver.go, mandate_validator.go, mandate_authority.go;
--   below it Queries and InForce (GetActiveMandates).
-- - Validation/Compliance: validation/compliance_checker.go; below it Buckets (expectedEvents) and
--   Report (CheckComplianceMandate).
-- - Consensus/Peer: consensus/node.go. Consensus/Quorum: consensus/quorum.go.
-- - Consensus/Commit: consensus/commit.go and the bitmap of consensus/prepare.go; below it Phase
--   (RunCommitPhase), Reading (what verifyPrepareQuorum checks), Writing and Accept (what the leader
--   writes), Network (leader and validator over the bus), Safety (two blocks of one cycle) and Lowered
--   (the degraded label).
-- - Consensus/Degraded: consensus/degraded.go. Consensus/RateLimit: consensus/ratelimit.go.
-- - Consensus/Triad: consensus/triad.go. Consensus/Gossip: consensus/gossip.go.
-- - Smt: smt/smt.go; below it Total (Insert gives a tree), Hashed (what the store keeps), Proofs
--   (Get, Prove and Verify) and Binding (what a root commits to).
-- - LightClient: lightclient/service.go; below it Keys (keysForCycle), Sound (what a verified block
--   shows), Crash (positions beyond the trusted set), Held and Accept (the leader's final block).
-- - Engine: the state of consensus/engine.go, api.go and the pool of entries; below it Submission
--   (Enqueue, Submit), Rotations (key_rotation.go), Bodies (mandates.go), Transition (Apply of
--   state/apply.go), Prepare (RunPreparePhase of prepare.go), Cycle (RunCycle), Operations (the
--   methods as data); and the proofs Pool (ingestGossipedEntriesLocked), Rollback and Atomic (how a
--   cycle ends), Lost (what Submit took), Ledger and History (chain and proofs over a run), Silent (the
--   status of the other validators), Signer (the key that RotateKey signs with), Start
--   (NewEngine, NewEngineWithPeers) and Pace (the length of the cycles, updateCycleDuration).
--   Engine/SubChains: consensus/subchain.go; below it Cross.
-- - Transport: transport/secure_conn.go with identity/kyber.go; below it Frames (WriteMessage and
--   ReadMessage) and Handshake (the two sides of kemHandshake). Transport/P2p: transport/p2p/gossip.go;
--   below it Delivery (from a call to the peers), Finals (what a follower comes to hold) and Redial
--   (redialLoop).
-- - Rest: rest/server.go; below it Access (authenticate and withAuth), Window (the limiter) and Answers
--   (what an answer promises of the engine's chain).
-- - Server: server/server.go, NewServer with its options and SubmitHash; below it Calls (the calls that
--   change the engine, those of server/mandates.go included, as data), Options (what a server that was
--   started can be asked) and Reads (server/lightclient.go and the other reads), with Stream
--   (StreamBlocks), Proofs (GetMerkleProof) and Wire (blockToProto against the light client).
-- - Tests: runs at small inputs, and each theorem applied at one.
--
-- Conventions. A Go string or byte slice is a list of numbers. A map is an association list. A
-- pointer that may be nil is an Option, and so is a slice that the code compares with nil. An error
-- is a value of the module's own error type. Sums of uint64 wrap around where the code adds them;
-- int values that are lengths or indices are natural numbers. Loops are structural recursion on the
-- slice, on the bit index, or on the depth of the tree; the one descent of the tree that Go would
-- continue below depth 0 is the result none. The loop of expectedEvents takes fuel, one unit a
-- bucket, and is none when that runs out: as many units as the window has nanoseconds, and one, are
-- enough where its sums do not wrap around. The loop of StreamBlocks takes fuel too, of which 1025 is
-- enough.
--
-- Parameters, for code that is not in this repository: crypto/mldsa (record Mldsa), the CBOR encoder
-- with BLAKE3 and SHA-256 (records Codec, HashCodec and MandateCodec, and the argument blake3), and
-- the curve arithmetic under VRFVerifyProof (the argument vrf_verify); HKDF, ChaCha20-Poly1305 and
-- Kyber1024 (record Ciphers), JSON (record Json), and what the REST server uses of net/http, strconv,
-- encoding/hex and encoding/json (record Web); the CBOR decoder of mandates is the argument decode.
-- What a theorem asks of them stands among its hypotheses.
--
-- The network. A connection is the list of the bytes that arrive; a stream of the gossip channel is one
-- frame. Which streams arrive, and when, is up to whoever calls: the theorems on a node take any list
-- of events. The redial loop's rounds are one period apart, and its dials end within their round.
--
-- The engine. A step of an engine holds the bus as a field; what other engines put there while it
-- waits is a function from bus to bus (record Waits), and nothing is assumed of that function. A
-- float64 is its bit pattern, compared and subtracted by a record Floats; the products of float64 in
-- the length of a cycle are the record FloatTimes, with any value. A Go panic is an error value of its
-- own (index_out_of_range, slice_out_of_range); RunCycle, which recovers from it, then ends in the state
-- of the moment.
--
-- Not modelled: locks (each method is one step), goroutines and tickers, the length of
-- waits, storage (so SetStorage, which replaces chain and state, is no operation here), RunVRFPhase and
-- phases that are called outside a cycle, external anchors, the commands, and the Laplacian and its
-- eigenvalue, which are floating-point iterations.
pub mod Prelude
pub mod Chain
pub mod Identity
pub mod Validation
pub mod Consensus
pub mod Smt
pub mod LightClient
pub mod Engine
pub mod Transport
pub mod Rest
pub mod Server
pub mod Tests
