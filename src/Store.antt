-- ===== src/Store.antt =====
-- service/internal/store: the in-memory repository of memory.go. Each component's maps, the
-- functions over them and what these promise stand in a module of their own; `State` joins them.
pub mod Unique
pub mod Responders
pub mod Certificates
pub mod Issuance
pub mod Crls
pub mod Outbox
pub mod Access
pub mod AuditQuery
pub mod State
pub mod Repository
