-- ===== src/Shared.antt =====
-- src/shared: what the client and the server share.
pub mod Clock
pub mod Types
pub mod Messages
