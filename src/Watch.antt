-- ===== src/Watch.antt =====
-- internal/watch: the hub that fans one source's transactions out to watchers.
pub mod Event
pub mod Window
pub mod Registry
pub mod Deliveries
pub mod Hub
pub mod Serve
pub mod Live
pub mod Action
pub mod Calls
