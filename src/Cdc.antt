-- ===== src/Cdc.antt =====
-- internal/cdc: positions, transactions, snapshots.
pub mod Error
pub mod Cursor
pub mod Transaction
pub mod Visibility
pub mod Shape
pub mod Row
pub mod Keys
pub mod Relation
pub mod Assembly
pub mod Decoder
pub mod Failure
pub mod Session
pub mod Slot
pub mod Reading
pub mod Bootstrap
pub mod Stream
pub mod Run
pub mod Retention
pub mod Validation
pub mod Paging
pub mod Config
pub mod Source
