-- ===== src/Http.antt =====
-- service/internal/httpapi: what the HTTP server decides before and beside the handlers.
pub mod Nonces
pub mod RateLimits
pub mod Scopes
pub mod Errors
