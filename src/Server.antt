-- ===== src/Server.antt =====
-- src/server: the components behind the sync server.
pub mod Errors
pub mod Validate
pub mod User
pub mod Security
pub mod Table
pub mod Storage
pub mod Memory
pub mod RateLimiter
pub mod Resolver
pub mod Filter
pub mod TableRecords
pub mod Broadcast
pub mod Sessions
pub mod Synchronize
