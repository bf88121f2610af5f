-- ===== src/Lifecycle.antt =====
-- service/internal/lifecycle: the services over the repository.
pub mod World
pub mod Transactions
pub mod Outbox
pub mod Messages
pub mod Caa
pub mod Services
