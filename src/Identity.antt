-- ===== src/Identity.antt =====
-- pkg/identity: the signature wrapper (dilithium.go), and the registry of keys with the text that a
-- submitter signs (registry.go, signature.go).
pub mod Dilithium
pub mod Registry
