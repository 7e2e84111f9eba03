-- ===== src/Tests.antt =====
-- Runs of the definitions at small inputs, and each theorem applied at one.
mod Fixtures
mod RotationTests
mod QuorumTests
mod CommitTests
mod DegradedTests
mod SmtTests
mod NetworkTests
mod ComplianceTests
mod LightTests
mod EngineTests
mod StartTests
mod SubChainTests
mod TransportTests
mod RestTests
mod ServerTests
