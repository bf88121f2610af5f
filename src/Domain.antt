-- ===== src/Domain.antt =====
-- service/internal/domain/types.go: the enumerations and the records of the service, one module
-- for each group of them, passed on here.
mod Status
mod Pki
mod Events
mod Access
unfoldable pub use Status.*
pub use Pki.*
pub use Events.*
pub use Access.*
