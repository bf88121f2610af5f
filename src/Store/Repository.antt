-- ===== src/Store/Repository.antt =====
-- memory.go: the methods of MemoryStore, which implement the interface Repository of store.go.
mod Directory
mod Pki
mod Events
mod Access
unfoldable pub use Directory.*
unfoldable pub use Pki.*
unfoldable pub use Events.*
unfoldable pub use Access.*
