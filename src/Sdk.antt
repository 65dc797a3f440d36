-- ===== src/Sdk.antt =====
-- sdk/go/watchd: the client.
pub mod Store
pub mod Interface
pub mod Stream
pub mod Sync
