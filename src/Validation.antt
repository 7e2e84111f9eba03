-- ===== src/Validation.antt =====
-- pkg/validation: key rotation, mandates and compliance.
pub mod KeyRotation
pub mod Mandates
pub mod Compliance
