-- ===== src/Audit.antt =====
-- service/internal/store/audit_hash.go and the audit functions of memory.go: the hash chain over
-- audit events, its verification, appending and retention.
pub mod Hex
pub mod Hash
pub mod Verify
pub mod Memory
pub mod Chain
pub mod Append
pub mod Prune
pub mod Tamper
