-- ===== src/Client.antt =====
-- The client: its storage in the browser, its tables, and the synchronisation with the server.
pub mod ObjectStore
pub mod Storage
pub mod Table
pub mod Connection
pub mod Sync
